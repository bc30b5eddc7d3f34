-- ===== src/Client/Loop/Thread.antt =====
-- The net thread of connclient/src/conn_client.cpp after its loop has ended.
use defold_connclient.Client.State.{Client}
