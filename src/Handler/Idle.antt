-- ===== src/Handler/Idle.antt =====
-- checkMaxIdleTime of pkg/handler/interactive.go: one turn of the loop, and the loop. Times are
-- nanoseconds. A time.Ticker fires when its time has come, and then a period later.
pub mod Laws
use gojump.Prelude.{
  ℕ, List, [], ◌∷◌, Bool, true, false, Option, none, some, if◌then◌else◌, leb, ◌+◌, ◌*◌,
}
use gojump.Prelude.Int.{ℤ, pos, negsuc}

pub record Watch : Type 0 where
  -- The time at which the ticker fires next.
  pub tick : ℕ
  pub check_status : Bool
  -- How often sess.Close was called.
  pub closes : ℕ

-- The clock at a time, a value on checkChan, the end of the session.
pub data Event : Type 0 where
  clock : ℕ → Event
  check : ℕ → Bool → Event
  done : Event

module _ (max_idle_time : ℕ) where
  -- tick.Reset
  reset : ℕ → Watch → Watch
  reset now s = record s { tick = now + max_idle_time }

  tick_fires : Watch → Watch
  tick_fires s = record s {
    tick = s.tick + max_idle_time;
    closes = if s.check_status then s.closes + 1 else s.closes;
  }

  unfoldable pub turn : Watch → Event → Watch
  unfolding reset tick_fires
  turn s (clock now) = if leb s.tick now then tick_fires s else s
  turn s (check now true) = reset now (record s { check_status = true })
  turn s (check now false) = record s { check_status = false }
  turn s done = s

  unfoldable pub loop : Watch → List Event → Watch
  loop s [] = s
  loop s (clock now ∷ es) = loop (turn s (clock now)) es
  loop s (check now b ∷ es) = loop (turn s (check now b)) es
  loop s (done ∷ es) = s

-- The loop that starts at the time `now`; `none` is the panic of NewTicker, which wants a period
-- above 0.
unfoldable pub check_max_idle_time : ℤ → ℕ → List Event → Option Watch
check_max_idle_time (negsuc n) now es = none
check_max_idle_time (pos minutes) now es =
    let max_idle_time = minutes * 60000000000 in
    if leb minutes 0
    then none
    else some (
        loop max_idle_time (record { tick = now + max_idle_time; check_status = true; closes = 0 })
          es)
