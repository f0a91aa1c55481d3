-- ===== src/RequestSender.antt =====
-- artdaq/DAQrate/detail/RequestSender.cc and .hh, and the message of RequestMessage.hh: the requests
-- that an event builder sends out again and again until their events are complete. A sending thread
-- is counted in `request_sending` from its start to its end; the socket is outside the model.
mod Tests
pub mod Laws
use artdaq.Prelude.Ord.{nat_ord}
use artdaq.Map.Trim.{keep_last}
use artdaq.Prelude.{
  ltb, ◌==◌, if◌then◌else◌, ℕ, ◌+◌, ◌-◌, Bool, true, false, not, ◌||◌, Option, none, some, List, [],
}
use artdaq.Map.{Assoc, contains, insert, erase}

pub data RequestMessageMode : Type 0 where
  normal end_of_run : RequestMessageMode

pub record RequestSender : Type 0 where
  pub send_requests : Bool
  pub active_requests : Assoc ℕ ℕ
  pub request_mode : RequestMessageMode
  pub last_request_send_time : ℕ
  pub min_request_interval_ms : ℕ
  pub request_sending : ℕ
  pub run_number : ℕ

-- `RequestMessage`: the rank, the run number, the mode and the packets.
pub record RequestMessage : Type 0 where
  pub rank : ℕ
  pub message_run : ℕ
  pub mode : RequestMessageMode
  pub packets : List (ℕ × ℕ)

unfoldable pub new_sender : Bool → ℕ → RequestSender
new_sender send_requests min_interval = record {
  send_requests = send_requests;
  active_requests = [];
  request_mode = normal;
  last_request_send_time = 0;
  min_request_interval_ms = min_interval;
  request_sending = 0;
  run_number = 0;
}

-- Nothing is sent now: with `end_of_run_only` outside the EndOfRun mode.
unfoldable pub is_held : Bool → RequestMessageMode → Bool
is_held false mode = false
is_held true normal = true
is_held true end_of_run = false

-- `SendRequest`: a thread starts.
unfoldable pub send_request : ℕ → RequestSender → Bool → RequestSender
send_request now r end_of_run_only =
    if not r.send_requests || is_held end_of_run_only r.request_mode
    then r
    else record r { last_request_send_time = now; request_sending = r.request_sending + 1 }

-- `do_send_request_`, when its thread comes to run: the message, if there is one.
unfoldable pub do_send_request : ℕ → RequestSender → RequestSender × Option RequestMessage
do_send_request my_rank r = (
  record r { request_sending = r.request_sending - 1 },
  if r.send_requests
      then some (record {
        rank = my_rank;
        message_run = r.run_number;
        mode = r.request_mode;
        packets = r.active_requests;
      })
      else none,
)

unfoldable pub set_request_mode : ℕ → RequestSender → RequestMessageMode → RequestSender
set_request_mode now r mode = send_request now (record r { request_mode = mode }) true

-- `max_count` is `RequestMessage::max_request_count()`.
unfoldable pub with_request : ℕ → ℕ → ℕ → Assoc ℕ ℕ → Assoc ℕ ℕ
with_request max_count seq ts active =
    keep_last max_count (if contains seq active then active else insert seq ts active)

unfoldable pub add_request : ℕ → ℕ → RequestSender → ℕ → ℕ → RequestSender
add_request max_count now r seq ts =
    send_request now
      (record r { active_requests = with_request max_count seq ts r.active_requests })
      (ltb (now - r.last_request_send_time) r.min_request_interval_ms)

unfoldable pub remove_active : RequestSender → ℕ → RequestSender
remove_active r seq = record r { active_requests = erase seq r.active_requests }

unfoldable pub set_run_number : RequestSender → ℕ → RequestSender
set_run_number r run = record r { run_number = run }

unfoldable pub requests_in_flight : RequestSender → Bool
requests_in_flight r = not (r.request_sending == 0)
