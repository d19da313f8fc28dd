-- ===== src/Proxy/Bridge.antt =====
-- SwitchSession.Bridge of pkg/proxy/switchManager.go and the recorder of record.go. The loop runs
-- over the events that its select receives, each with the time at which it is handled, in
-- nanoseconds since 1970. Errors of writes are only logged, so a write is what was handed over.
pub mod Record
pub mod Recording
pub mod Forward
pub mod Expiry
use gojump.Prelude.{
  ℕ, suc, ◌+◌, ◌*◌, ◌/◌, Str, List, [], ◌∷◌, ◌++◌, Bool, true, false, Option, none, some,
  if◌then◌else◌, ltb,
}
use gojump.Prelude.Int.{ℤ, pos, negsuc}
use gojump.Model.Expire.{ExpireInfo, is_expired}

-- A recorder is switched off, has no file because an error occurred, or holds its rows.
pub data ReplyRecorder : Type 0 where
  disabled broken : ReplyRecorder
  writing : (header : Bool) (rows : List Str) → ReplyRecorder

-- NewReplayRecord: `created` is whether the directory and the file could be made.
unfoldable pub new_replay_record : (disable_recorder created : Bool) → ReplyRecorder
new_replay_record true created = disabled
new_replay_record false true = writing false []
new_replay_record false false = broken

-- Record: `none` is the panic on the writer that a broken recorder lacks.
unfoldable pub record_row : ReplyRecorder → Str → Option ReplyRecorder
record_row disabled p = some disabled
record_row broken [] = some broken
record_row broken (b ∷ bs) = none
record_row (writing header rows) [] = some (writing header rows)
record_row (writing header rows) (b ∷ bs) = some (writing true (rows ++ ((b ∷ bs) ∷ [])))

pub data Event : Type 0 where
  tick done keep_alive user_done exit_signal : Event
  win : Option (ℕ × ℕ) → Event
  srv_chan user_chan : Option Str → Event

pub record State : Type 0 where
  pub last_active_time : ℕ
  pub to_user : List Str
  pub to_server : List Str
  pub windows : List (ℕ × ℕ)
  pub keep_alives : ℕ
  pub recorder : ReplyRecorder

pub data Next : Type 0 where
  going ended panicked : State → Next

abbrev pub second : ℕ
second = 1000000000

-- `now.After(lastActiveTime.Add(maxIdleTime))`, with the idle time in minutes.
unfoldable pub after_idle : ℤ → (last now : ℕ) → Bool
after_idle (pos m) last now = ltb (last + m * (60 * second)) now
after_idle (negsuc m) last now = ltb last (now + suc m * (60 * second))

abbrev pub unix : ℕ → ℤ
unix now = pos (now / second)

-- `lastActiveTime = time.Now()` at the end of a turn.
unfoldable pub touch : State → ℕ → State
touch s now = record s { last_active_time = now }

module _ (max_idle_time : ℤ) (info : ExpireInfo) where
  unfoldable pub turn : State → Event → ℕ → Next
  unfolding touch
  turn s tick now =
      if after_idle max_idle_time s.last_active_time now
      then ended s
      else if is_expired info (unix now)
      then ended s
      else going s
  turn s done now = ended s
  turn s (win none) now = ended s
  turn s (win (some w)) now = going (touch (record s { windows = s.windows ++ (w ∷ []) }) now)
  turn s (srv_chan none) now = ended s
  turn s (srv_chan (some p)) now = elim (record_row s.recorder p) [
    | none ↦ panicked s
    | some r ↦ going (touch (record s { recorder = r; to_user = s.to_user ++ (p ∷ []) }) now)
  ]
  turn s (user_chan none) now = ended s
  turn s (user_chan (some p)) now =
      going (touch (record s { to_server = s.to_server ++ (p ∷ []) }) now)
  turn s keep_alive now =
      if ltb (s.last_active_time + 60 * second) now
      then going (record s { keep_alives = suc s.keep_alives })
      else going s
  turn s user_done now = ended s
  turn s exit_signal now = ended s

  unfoldable pub bridge : State → List (Event × ℕ) → Next
  bridge s [] = going s
  bridge s ((ev, now) ∷ events) = elim (turn s ev now) [
    | going t ↦ bridge t events
    | ended t ↦ ended t
    | panicked t ↦ panicked t
  ]
