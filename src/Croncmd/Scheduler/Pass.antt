-- ===== src/Croncmd/Scheduler/Pass.antt =====
-- examples/croncmd/scheduler.go: the pass of one scheduler over a schedule, with no other scheduler
-- at work and no call that fails.
use mathlib.Core.Path.{subst}
use libp2p_kv_raft.Base.{
  ℕ, zero, suc, ◌≤◌, ◌≡◌, ◌≢◌, refl, sym, ◌∙◌, ap, arith, inl, inr, true, false, ltb, ◌==◌,
  Bool-cases, Option, none, some, Option-cases, List, [], ◌∷◌, Bytes, equal, equal_iff, equal→eq,
  All, All-both,
}
use libp2p_kv_raft.Outcome.{Result, ok}
use libp2p_kv_raft.Store.Rows.{find}
use libp2p_kv_raft.Store.Rows
use libp2p_kv_raft.Store.Rows.Laws.{find-put}
use libp2p_kv_raft.Croncmd.Spec.{Spec}
use libp2p_kv_raft.Croncmd.Schedule.{Schedule, Fire, Calendar, Json, parsed, next_fires, next_fire}
use libp2p_kv_raft.Croncmd.Program.{Program, done}
use libp2p_kv_raft.Croncmd.Scheduler.{
  Scheduler, after_fire, fire, run_fires, run_schedule, watermark_key, window_from, not_stale,
  max_fires_per_schedule_per_tick,
}
use libp2p_kv_raft.Croncmd.Scheduler.Alone.{
  run_alone, submissions, suc_ne, tally-hit, run_alone-submissions,
}
use libp2p_kv_raft.Croncmd.Scheduler.System.{World, with_store, with_attempt}
use libp2p_kv_raft.Croncmd.Scheduler.Due.{due, up_to, due-fires_from, key_of}

ok_injective : {a b : List ℕ} → ◌≡◌ {A = Result (List ℕ)} (ok a) (ok b) → a ≡ b
ok_injective e = ground arith

module _ (K : Calendar) (J : Json) (S : Scheduler) where
  open K use {Location}
  open J use {encode_fire}

  module _ (encodes : (f : Fire) → (b : Bytes) × (encode_fire f ≡ some b)) (inst : Bytes) where
    -- A fire that nobody has claimed is submitted, and no other claim is touched.
    abbrev Fired : Bytes → (Result (Unit {0}) → Program) → Program → World → Type 0
    Fired key after p w =
        (v : World) × (run_alone inst p w ≡ run_alone inst (after (ok tt)) v)
        × (find key w.store ≡ none → 1 ≤ submissions key v)
        × ((k : Bytes) → k ≢ key → find k v.store ≡ find k w.store)

    untouched :
        (b c key : Bytes) (w : World) (k : Bytes)
        → k ≢ key
        → find k (Rows.put key c (Rows.put key b w.store)) ≡ find k w.store
    untouched b c key w k other =
        let ne : equal k key ≡ false = ground (arith, equal_iff k key) in
        find-put k key c (Rows.put key b w.store) ∙ rw ne (find-put k key b w.store ∙ rw ne refl)

    fire-Fired :
        (s : Schedule) (at : ℕ) (after : Result (Unit {0}) → Program) (w : World)
        → Fired (key_of K J S s at) after (fire K J S s at after) w
    unfolding fire run_alone
    fire-Fired s at after w =
        let (b, e) =
          encodes
            (record { schedule_id = s.id; command_id = s.command_id; at = at; instance_id = [] }) in
        let (c, f) =
          encodes (record {
            schedule_id = s.id;
            command_id = s.command_id;
            at = at;
            instance_id = inst;
          }) in
        elim (Option-cases (find (key_of K J S s at) w.store)) [
          | inl absent ↦ (
            with_store (with_attempt w (key_of K J S s at) true)
                (Rows.put (key_of K J S s at) c (Rows.put (key_of K J S s at) b w.store)),
            rw (e, absent, run_alone) (rw (f, run_alone) refl),
            λ h. tally-hit (key_of K J S s at) w.attempts,
            untouched b c (key_of K J S s at) w,
          )
          | inr (x, there) ↦
              (w, rw (e, there, run_alone) refl, (λ h. absurd (ground arith)), λ k other. refl)
        ]

    abbrev pub Submitted : Schedule → World → World → ℕ → Type 0
    Submitted s w v at =
        find (key_of K J S s at) w.store ≡ none → 1 ≤ submissions (key_of K J S s at) v

    -- A round for `at` submits what has its key, and leaves the keys of other fires alone.
    carry :
        (s : Schedule) (at : ℕ) (w v u : World)
        → Submitted s w u at
        → ((k : Bytes) → k ≢ key_of K J S s at → find k v.store ≡ find k w.store)
        → (rest : List ℕ) → All (Submitted s v u) rest
        → All (Submitted s w u) rest
    carry s at w v u mine others rest submitted =
        All-both {P = Submitted s v u} {Q = Submitted s v u} {R = Submitted s w u}
          (λ a sub again absent. elim (Bool-cases (equal (key_of K J S s a) (key_of K J S s at))) [
            | inl same ↦
                let e = equal→eq (key_of K J S s a) (key_of K J S s at) same in
                subst (λ k. 1 ≤ submissions k u) (sym e)
                  (mine (subst (λ k. find k w.store ≡ none) e absent))
            | inr other ↦ sub (
                others (key_of K J S s a)
                  (λ e. ground (arith, equal_iff (key_of K J S s a) (key_of K J S s at)))
                ∙ absent)
          ])
          rest submitted submitted

    -- One round for the fire `at`, with `rounds` of them left.
    module _ (s : Schedule) (spec : Spec) (loc : Location) (now at : ℕ) (last : Option ℕ) where
      abbrev go_on : ℕ → Program
      go_on rounds = run_fires K J S rounds s spec loc now at (done last)

      abbrev next_of : ℕ → Result (Unit {0}) → Program
      next_of rounds = after_fire K J S s at (rounds == 0) (go_on rounds) (done last)

      abbrev Onwards : ℕ → (ℕ → Program) → Type 0
      Onwards rounds p =
          (v : World)
          → All (Submitted s v (run_alone inst (p rounds) v)) (due K J S rounds spec loc now at)

      next_of-Onwards :
          (rounds : ℕ) → Onwards rounds go_on → Onwards rounds (λ n. next_of n (ok tt))
      unfolding due
      next_of-Onwards zero h v = tt
      next_of-Onwards (suc rounds) h v = rw (suc_ne rounds) (h v)

      round-Submitted :
          (rounds : ℕ) (w : World)
          → Onwards rounds go_on
          → All
              (Submitted s w (run_alone inst (fire K J S s at (next_of rounds)) w))
              (at ∷ due K J S rounds spec loc now at)
      round-Submitted rounds w h =
          let (v, eq, mine, others) = fire-Fired s at (next_of rounds) w in
          let end : World = run_alone inst (next_of rounds (ok tt)) v in
          let done_now : Submitted s w end at = λ absent. omega (
            arith,
            mine absent,
            run_alone-submissions inst (key_of K J S s at) (next_of rounds (ok tt)) v,
          ) in
          subst (λ u. All (Submitted s w u) (at ∷ due K J S rounds spec loc now at)) (sym eq)
            (
              done_now,
              carry s at w v end done_now others (due K J S rounds spec loc now at)
                  (next_of-Onwards rounds h v),
            )

    run_fires-Submitted :
        (rounds : ℕ) (s : Schedule) (spec : Spec) (loc : Location) (now cursor : ℕ)
        (last : Option ℕ) (w : World)
        → All
            (Submitted s w
              (run_alone inst (run_fires K J S rounds s spec loc now cursor (done last)) w))
            (due K J S rounds spec loc now cursor)
    unfolding due run_fires
    run_fires-Submitted zero s spec loc now cursor last w = tt
    run_fires-Submitted (suc rounds) s spec loc now cursor last w =
        elim (Option-cases (next_fire K spec loc cursor)) [
          | inl no_fire ↦ rw (no_fire, due) tt
          | inr (at, found) ↦ elim (Bool-cases (ltb now at)) [
            | inl ahead ↦ rw (found, ahead, due) tt
            | inr reached ↦
                rw (found, reached, due, run_fires)
                  (round-Submitted s spec loc now at last rounds w
                    (run_fires-Submitted rounds s spec loc now at last))
          ]
        ]

-- A pass over a schedule that runs by itself, with no call that fails and with fires that encode,
-- submits every fire that is due and that nobody has claimed: those that NextFires lists from the
-- schedule's mark on, or from the start of the catch-up window where the mark is older, up to the
-- present and to the bound on the fires of one pass. The schedule must parse and have a mark.
pub run_schedule-Submitted :
    (K : Calendar) (J : Json) (S : Scheduler)
    → (encodes : (f : Fire) → (b : Bytes) × (J.encode_fire f ≡ some b))
    → (inst : Bytes) (s : Schedule) (spec : Spec) (loc : K.Location) (now : ℕ) (last : Option ℕ)
      (value : Bytes) (w : World) (listed : List ℕ)
    → parsed K s ≡ ok (spec, loc)
    → find (watermark_key S s.id) w.store ≡ some value
    → next_fires K s
        (not_stale K J S (window_from K J S (K.parse_mark value) now) now)
        max_fires_per_schedule_per_tick
      ≡ ok listed
    → All
        (Submitted K J S encodes inst s w (run_alone inst (run_schedule K J S s now (done last)) w))
        (up_to now listed)
unfolding run_schedule run_alone next_fires
run_schedule-Submitted K J S encodes inst s spec loc now last value w listed is_parsed marked
      lists =
    let start = not_stale K J S (window_from K J S (K.parse_mark value) now) now in
    rw (is_parsed, marked, run_alone)
      (subst
        (All (
          Submitted K J S encodes inst s w (
            run_alone inst
              (run_fires K J S max_fires_per_schedule_per_tick s spec loc now start (done last))
              w)))
        (due-fires_from K J S max_fires_per_schedule_per_tick spec loc now start
          ∙ ap (up_to now) (ok_injective (rw is_parsed at lists)))
        (run_fires-Submitted K J S encodes inst max_fires_per_schedule_per_tick s spec loc now start
          last w))
