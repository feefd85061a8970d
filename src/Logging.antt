-- ===== src/Logging.antt =====
-- The wrappers that write a line about each request, src/log.rs, and the errors that become
-- responses, src/try_or_400.rs.
pub mod Time
pub mod ErrorChain
use rouille.Common.{ℕ, Option, none, some, List, [], ◌∷◌, ◌++◌, ◌>>=◌, Text, text, decimal}
use rouille.Http.Request.{Request}
use rouille.Http.Response.{Response}
use rouille.Server.Process.{Handled, returned, panicked}
use rouille.Logging.Time.{Duration, Floats, format_time}

-- `rq_line`, with the time that it is
unfoldable request_line : Text → Request → Text
request_line now rq = now ++ text " UTC - " ++ rq.method ++ text " " ++ rq.url

-- The end of the line: the status of the response, or that the handler panicked.
abbrev ending : Handled → Text
ending (returned response) = decimal response.status_code
ending panicked = text "PANIC!"

-- `log`: the line, which is written even if that fails, and what the handler has come to: a response
-- is given back and a panic goes on. `none` is the overflow in `format_time`.
unfoldable log : Floats → Text → Request → Duration → Handled → Option (Text × Handled)
unfolding request_line format_time decimal
log floats now rq elapsed handled = format_time floats elapsed >>= λ elapsed_time. some (
  request_line now rq ++ text " - " ++ elapsed_time ++ text " - " ++ ending handled ++ text "\n",
  handled,
)

-- The call that `log_custom` makes of `log_ok_f` or of `log_err_f`.
data LogCall : Type 0 where
  log_ok_f : Request → Response → Duration → LogCall
  log_err_f : Request → Duration → LogCall

unfoldable log_custom : Request → Duration → Handled → LogCall × Handled
log_custom req elapsed (returned response) = (log_ok_f req response elapsed, returned response)
log_custom req elapsed panicked = (log_err_f req elapsed, panicked)
