-- ===== src/Port.antt =====
-- `Mutex` and `CondVar` of port/port_posix.h and port/port_posix.cc, whose flag `locked_` the threads
-- set and clear around the calls of the library. The mutex of the library is a parameter: `Takes` and
-- `Gives` are the returns of its calls that take it for a thread and give it back.
pub mod Mutex
pub mod Calls
mod Tests
use compaction_test.Base.{
  ℕ, ◌/◌, ◌%◌, ◌*◌, Option, none, some, Bool, true, false, ◌==◌, if◌then◌else◌, ◌≡◌,
}

-- Where a thread is: in no function and without the mutex; behind the library's call that took it;
-- out of `Lock` or `Wait`; in `Unlock` or in `Wait` with the flag cleared; and asleep in `Wait`.
pub data Place : Type 0 where
  outside acquired holding leaving falling_asleep asleep : Place

-- The return of `TimedWait`, by what the library's call returns; `none` is an abort.
unfoldable pub timed_wait_result : ℕ → ℕ → Option Bool
timed_wait_result timed_out err =
    if err == timed_out then some true else if err == 0 then some false else none

-- The time in microseconds as seconds and nanoseconds.
unfoldable pub to_timespec : ℕ → ℕ × ℕ
to_timespec abs_time_us = (abs_time_us / 1000000, abs_time_us % 1000000 * 1000)

abbrev pub put_place : ℕ → Place → (ℕ → Place) → ℕ → Place
put_place t p places i = if i == t then p else places i

-- The library's mutex, the flag, and the places of the threads.
pub record System (M : Type 0) : Type 0 where
  pub mutex : M
  pub locked : Bool
  pub places : ℕ → Place

-- `AssertHeld`.
unfoldable pub assert_held : {M : Type 0} → System M → Bool
assert_held s = s.locked

module _ (M : Type 0) (Takes Gives : M → ℕ → M → Type 0) where
  -- One step of a thread.
  pub data Step : System M → System M → Type 0 where
    lock_takes :
        {m m2 : M} {locked : Bool} {places : ℕ → Place} (t : ℕ)
        → places t ≡ outside
        → Takes m t m2
        → Step
            (record { mutex = m; locked = locked; places = places })
            (record { mutex = m2; locked = locked; places = put_place t acquired places })
    sets :
        {m : M} {locked : Bool} {places : ℕ → Place} (t : ℕ)
        → places t ≡ acquired
        → Step
            (record { mutex = m; locked = locked; places = places })
            (record { mutex = m; locked = true; places = put_place t holding places })
    unlock_clears :
        {m : M} {locked : Bool} {places : ℕ → Place} (t : ℕ)
        → places t ≡ holding
        → Step
            (record { mutex = m; locked = locked; places = places })
            (record { mutex = m; locked = false; places = put_place t leaving places })
    unlock_gives :
        {m m2 : M} {locked : Bool} {places : ℕ → Place} (t : ℕ)
        → places t ≡ leaving
        → Gives m t m2
        → Step
            (record { mutex = m; locked = locked; places = places })
            (record { mutex = m2; locked = locked; places = put_place t outside places })
    wait_clears :
        {m : M} {locked : Bool} {places : ℕ → Place} (t : ℕ)
        → places t ≡ holding
        → Step
            (record { mutex = m; locked = locked; places = places })
            (record { mutex = m; locked = false; places = put_place t falling_asleep places })
    wait_gives :
        {m m2 : M} {locked : Bool} {places : ℕ → Place} (t : ℕ)
        → places t ≡ falling_asleep
        → Gives m t m2
        → Step
            (record { mutex = m; locked = locked; places = places })
            (record { mutex = m2; locked = locked; places = put_place t asleep places })
    wait_takes :
        {m m2 : M} {locked : Bool} {places : ℕ → Place} (t : ℕ)
        → places t ≡ asleep
        → Takes m t m2
        → Step
            (record { mutex = m; locked = locked; places = places })
            (record { mutex = m2; locked = locked; places = put_place t acquired places })

  pub data Steps : System M → System M → Type 0 where
    start : {s : System M} → Steps s s
    step : {s s2 s3 : System M} → Steps s s2 → Step s2 s3 → Steps s s3

  -- A new mutex, which no thread uses.
  unfoldable pub new_mutex : M → System M
  new_mutex m = record { mutex = m; locked = false; places = λ t. outside }
