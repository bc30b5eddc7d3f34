-- ===== src/Client/Log.antt =====
-- connclient/src/conn_client.cpp: the log functions and macros. The head of a line, which has the
-- time and the place in the code, is part of the text that is passed.
pub mod Lines
use defold_connclient.Prelude.{
  ℕ, Bool, Option, none, some, List, [], ◌∷◌, ◌++◌, is_some, if◌then◌else◌,
}
use defold_connclient.Client.State.{Env, Client, log_debug_event, log_info_event, log_error_event}
use defold_connclient.Client.Send.{enqueue_out}

module _ (e : Env) where
  -- With what is printed where no callback is set.
  unfoldable pub log_debug : List ℕ → Client e → Option (List ℕ) × Client e
  log_debug str c =
      if is_some c.callbacks.log_debug_cb
      then (none, enqueue_out e (log_debug_event str) c)
      else (some str, c)

  unfoldable pub log_info : List ℕ → Client e → Option (List ℕ) × Client e
  log_info str c =
      if is_some c.callbacks.log_info_cb
      then (none, enqueue_out e (log_info_event str) c)
      else (some str, c)

  unfoldable pub log_error : List ℕ → Client e → Option (List ℕ) × Client e
  log_error str c =
      if is_some c.callbacks.log_error_cb
      then (none, enqueue_out e (log_error_event str) c)
      else (some str, c)

  -- LOG_DEBUG, LOG_INFO and LOG_ERROR
  unfoldable pub debug_line : List ℕ → Client e → Option (List ℕ) × Client e
  debug_line str c = if c.debug_log_mode then log_debug str c else (none, c)

  unfoldable pub info_line : List ℕ → Client e → Option (List ℕ) × Client e
  info_line str c = if c.debug_log_mode then log_info str c else (none, c)

  unfoldable pub error_line : List ℕ → Client e → Option (List ℕ) × Client e
  error_line str c = log_error str c

  -- The callback for log lines of KCP: "[KCP]:" and the line.
  unfoldable pub kcp_log_fun : List ℕ → Client e → Option (List ℕ) × Client e
  kcp_log_fun log c = debug_line (b'[' ∷ b'K' ∷ b'C' ∷ b'P' ∷ b']' ∷ b':' ∷ log) c
