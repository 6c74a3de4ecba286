-- ===== src/Wa/Pairing/Waiting.antt =====
-- internal/wa/pair_observe.go, `PairWaitNext`: the waiter, its watchdog and the producer as threads
-- that interleave. The waiter tests its condition and joins the condition variable's list under the
-- session's lock, so the producer cannot run between the two; the watchdog broadcasts without the lock.
use whatsapp_mcp_docker.Base.{
  ℕ, ◌^◌, ◌<◌, ◌≡◌, refl, ◌≢◌, Bool, true, false, not, ◌&&◌, arith, ◌==◌, if◌then◌else◌,
}
use whatsapp_mcp_docker.Wa.Pairing.{PairEvent, Session, publish, mark_done}

-- Where the waiter is: at the test of its loop, past a test that told it to wait, on the list of
-- the condition variable, or returned with the event and whether the context has expired.
pub data Waiter : Type 0 where
  testing waiting parked : Waiter
  returned : PairEvent → Bool → Waiter

pub record Thread : Type 0 where
  pub session : Session
  pub start_seq : ℕ
  pub expired : Bool
  pub fired : Bool  -- the watchdog has broadcast
  pub waiter : Waiter

-- session.obsSeq == startSeq && !session.obsDone && ctx.Err() == nil
abbrev pub must_wait : Thread → Bool
must_wait t = (t.session.obs_seq == t.start_seq) && (not t.session.obs_done && not t.expired)

abbrev pub wake : Waiter → Waiter
wake parked = testing
wake other = other

-- The waiter at its test.
abbrev pub test : Thread → Waiter
test t = if must_wait t then waiting else returned t.session.obs_latest t.expired

-- Steps of the waiter, of the clock and of the watchdog.
pub data Step : Thread → Thread → Type 0 where
  testing_step :
      {t : Thread} (w : Waiter) → t.waiter ≡ testing → test t ≡ w → Step t (record t { waiter = w })
  parking : {t : Thread} → t.waiter ≡ waiting → Step t (record t { waiter = parked })
  expiring : {t : Thread} → t.expired ≡ false → Step t (record t { expired = true })
  firing :
      {t : Thread}
      → t.expired ≡ true
      → t.fired ≡ false
      → Step t (record t { fired = true; waiter = wake t.waiter })

-- Steps of the producer, which takes the lock: not while the waiter is between its test and the list.
pub data Produce : Thread → Thread → Type 0 where
  publishing :
      {t : Thread} (evt : PairEvent)
      → t.waiter ≢ waiting
      → Produce t (record t { session = publish evt t.session; waiter = wake t.waiter })
  finishing :
      {t : Thread}
      → t.waiter ≢ waiting
      → Produce t (record t { session = mark_done t.session; waiter = wake t.waiter })

pub data Runs (t : Thread) : Thread → Type 0 where
  here : Runs t t
  step : {u v : Thread} → Runs t u → Step u v → Runs t v
  produce : {u v : Thread} → Runs t u → Produce u v → Runs t v

-- A call of `PairWaitNext` on a flow that is not over, with its context alive.
abbrev pub entered : Session → Thread
entered s = record {
  session = s;
  start_seq = s.obs_seq;
  expired = false;
  fired = false;
  waiter = testing;
}

-- The waiter is parked past its deadline, and no step but the producer's can ever wake it.
abbrev pub IsStuck : Thread → Type 0
IsStuck t =
    (t.waiter ≡ parked)
    × (t.expired ≡ true)
    × (t.session.obs_done ≡ false)
    × ((u : Thread) → ¬ Step t u)

abbrev lost : Session → Thread
lost s = record (entered s) { expired = true; fired = true; waiter = parked }

test-waiting : (s : Session) → s.obs_done ≡ false → test (entered s) ≡ waiting
test-waiting s h = ground arith

lost-stuck : (t u : Thread) → t.waiter ≡ parked → t.expired ≡ true → t.fired ≡ true → Step t u → ⊥
lost-stuck t _ w e f (testing_step v h k) = cc
lost-stuck t _ w e f (parking h) = cc
lost-stuck t _ w e f (expiring h) = cc
lost-stuck t _ w e f (firing h k) = cc

-- From every call on a flow that is not over, some interleaving of the waiter, the clock and the
-- watchdog leaves the waiter parked after its context has expired, with the watchdog's one broadcast
-- already made: nothing but another event of the flow, or its end, wakes it.
pub pair_wait_next-IsStuck :
    (s : Session) → s.obs_done ≡ false → (t : Thread) × Runs (entered s) t × IsStuck t
pair_wait_next-IsStuck s h = (
  lost s,
  (let looked : Thread = record (entered s) { waiter = waiting } in
      let late : Thread = record looked { expired = true } in
      let missed : Thread = record late { fired = true } in
      step {u = missed}
        (step {u = late}
          (step {u = looked} (step here (testing_step waiting refl (test-waiting s h)))
            (expiring refl))
          (firing refl refl))
        (parking refl)),
  (refl, refl, h, λ u st. lost-stuck (lost s) u refl refl refl st),
)

-- While a parked waiter has seen no new event, every step of the flow's producer, a new event or the
-- end of the flow, wakes it, and its next test returns the flow's latest event.
pub pair_wait_next_wakes :
    (t u : Thread)
    → t.waiter ≡ parked
    → t.session.obs_seq ≡ t.start_seq
    → t.start_seq < 2 ^ 64
    → Produce t u
    → (u.waiter ≡ testing) × (test u ≡ returned u.session.obs_latest t.expired)
unfolding publish mark_done
pair_wait_next_wakes t _ w same bound (publishing evt apart) = (ground arith, ground arith)
pair_wait_next_wakes t _ w same bound (finishing apart) = (ground arith, ground arith)
