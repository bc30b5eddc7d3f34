-- ===== src/Client/Log/Lines.antt =====
-- Log lines of connclient/src/conn_client.cpp and what comes of them in `Update`.
use defold_connclient.Prelude.{
  ℕ, ◌<◌, ◌≡◌, refl, sym, ap, ap₂, ◌∙◌, Bool, true, some, List, [], ◌∷◌, ◌++◌, map, length, lt→ltb,
  arith, append_assoc, append-nil,
}
use defold_connclient.Client.State.{
  Env, Client, Event, log_debug_event, log_info_event, log_error_event,
}
use defold_connclient.Client.Send.{enqueue_out}
use defold_connclient.Client.Log.{log_debug, log_info, log_error, debug_line, info_line, error_line}
use defold_connclient.Client.Api.{
  LuaCall, text, update, lua_arg, call_lua_callback, run_event, run_events,
}

pub data Line : Type 0 where
  debugs infos errors : List ℕ → Line

abbrev pub content : Line → List ℕ
content (debugs str) = str
content (infos str) = str
content (errors str) = str

abbrev event_of : Line → Event
event_of (debugs str) = log_debug_event str
event_of (infos str) = log_info_event str
event_of (errors str) = log_error_event str

-- What is passed to the callbacks `d`, `i` and `r` of the three levels.
abbrev pub call_of : ℕ → ℕ → ℕ → Line → LuaCall
call_of d i r (debugs str) = record { callback = d; arg = text str }
call_of d i r (infos str) = record { callback = i; arg = text str }
call_of d i r (errors str) = record { callback = r; arg = text str }

-- Every line has a byte.
abbrev pub AllFilled : List Line → Type 0
AllFilled [] = Unit {0}
AllFilled (line ∷ lines) = (0 < length (content line)) × AllFilled lines

module _ (e : Env) where
  pub log_line : Line → Client e → Client e
  log_line (debugs str) c = (debug_line e str c).1
  log_line (infos str) c = (info_line e str c).1
  log_line (errors str) c = (error_line e str c).1

  pub log_lines : List Line → Client e → Client e
  log_lines [] c = c
  log_lines (line ∷ lines) c = log_lines lines (log_line line c)

  module _ (d i r : ℕ) where
    -- All three callbacks are set, and debug lines are on.
    pub record Logs (c : Client e) : Type 0 where
      pub mode : c.debug_log_mode ≡ true
      pub debug : c.callbacks.log_debug_cb ≡ some d
      pub info : c.callbacks.log_info_cb ≡ some i
      pub error : c.callbacks.log_error_cb ≡ some r

    log_line-event :
        (line : Line) (c : Client e) → Logs c → log_line line c ≡ enqueue_out e (event_of line) c
    unfolding log_line debug_line info_line error_line log_debug log_info log_error
    log_line-event (debugs str) c l = ground (arith, l.mode, l.debug)
    log_line-event (infos str) c l = ground (arith, l.mode, l.info)
    log_line-event (errors str) c l = ground (arith, l.error)

    log_lines-events :
        (lines : List Line) (c : Client e)
        → Logs c
        → log_lines lines c ≡ record c { out_queue = c.out_queue ++ map event_of lines }
    unfolding log_lines enqueue_out
    log_lines-events [] c l =
        ap (λ events. record c { out_queue = events }) (sym (append-nil c.out_queue))
    log_lines-events (line ∷ lines) c l =
        let put = enqueue_out e (event_of line) c in
        ap (log_lines lines) (log_line-event line c l)
        ∙ log_lines-events lines put
            (record { mode = l.mode; debug = l.debug; info = l.info; error = l.error })
        ∙ ap (λ events. record c { out_queue = events })
            (append_assoc c.out_queue (event_of line ∷ []) (map event_of lines))

    run_event-line :
        (callable : ℕ → Bool) (line : Line) (c : Client e)
        → Logs c
        → callable d ≡ true
        → callable i ≡ true
        → callable r ≡ true
        → 0 < length (content line)
        → run_event e callable c (event_of line) ≡ call_of d i r line ∷ []
    unfolding run_event call_lua_callback lua_arg
    run_event-line callable (debugs str) c l cd ci cr full =
        rw (l.debug, cd, lt→ltb 0 (length str) full) refl
    run_event-line callable (infos str) c l cd ci cr full =
        rw (l.info, ci, lt→ltb 0 (length str) full) refl
    run_event-line callable (errors str) c l cd ci cr full =
        rw (l.error, cr, lt→ltb 0 (length str) full) refl

    run_events-lines :
        (callable : ℕ → Bool) (lines : List Line) (c : Client e)
        → Logs c
        → callable d ≡ true
        → callable i ≡ true
        → callable r ≡ true
        → AllFilled lines
        → run_events e callable c (map event_of lines) ≡ map (call_of d i r) lines
    unfolding run_events
    run_events-lines callable [] c l cd ci cr full = refl
    run_events-lines callable (line ∷ lines) c l cd ci cr full =
        ap₂ ◌++◌ (run_event-line callable line c l cd ci cr full.0)
          (run_events-lines callable lines c l cd ci cr full.1)

    -- With debug lines on, the three log callbacks set and callable, and no event waiting, log lines
    -- of any levels that are not empty all come to `Update`: it calls the callback of each line's
    -- level with the whole line, once and in order.
    pub update-log_lines :
        (callable : ℕ → Bool) (lines : List Line) (c : Client e)
        → Logs c
        → callable d ≡ true
        → callable i ≡ true
        → callable r ≡ true
        → AllFilled lines
        → c.out_queue ≡ []
        → (update e callable (log_lines lines c)).0 ≡ map (call_of d i r) lines
    unfolding update
    update-log_lines callable lines c l cd ci cr full empty =
        let logged : Client e = record c { out_queue = c.out_queue ++ map event_of lines } in
        ap (λ c'. (update e callable c').0) (log_lines-events lines c l)
        ∙ ap (λ events. run_events e callable logged (events ++ map event_of lines)) empty
        ∙ run_events-lines callable lines logged
            (record { mode = l.mode; debug = l.debug; info = l.info; error = l.error }) cd ci cr
            full
