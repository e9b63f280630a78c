-- ===== src/Croncmd/Scheduler/Safe.antt =====
-- examples/croncmd/scheduler.go: what the program of a pass claims and deletes.
use libp2p_kv_raft.Base.{
  ℕ, zero, suc, ◌+◌, ◌-◌, ◌*◌, ◌/◌, ◌≤◌, ◌<◌, ◌≡◌, refl, arith, Bool, true, false, inl, inr, ltb,
  ltb→lt, Option, none, some, Option-cases, List, [], ◌∷◌, ◌++◌, Bytes, ◌==◌,
}
use libp2p_kv_raft.Outcome.{Error, Result, ok, err}
use libp2p_kv_raft.Store.Rows.{Table}
use libp2p_kv_raft.Croncmd.Text.{contains}
use libp2p_kv_raft.Croncmd.Spec.{Spec}
use libp2p_kv_raft.Croncmd.Schedule.{Calendar, Json, Schedule, parsed, next_fire}
use libp2p_kv_raft.Croncmd.Steady.{IsSteady, next_fire-IsAfter}
use libp2p_kv_raft.Croncmd.Program.{
  Program, done, read_now, get_value, scan, put, delete, claim, submit,
}
use libp2p_kv_raft.Croncmd.Scheduler
use libp2p_kv_raft.Croncmd.Scheduler.{
  Scheduler, catch_up, retain, prefix, claim_part, after_last_slash, claim_key, claim_key_time,
  record_instance, claim_encoded, after_fire, at_fire, from_mark, fire, not_stale, window_from,
  run_fires, run_schedule, is_old, prune_keys, prune_claims, list_schedules, run_all, prune_is_due,
  tick, max_fires_per_schedule_per_tick, put_watermark, watermark_key,
}

-- What a program may do next: anything, only the submission for a claim it has won, or only the
-- release of a claim whose submission failed.
pub data Mode : Type 0 where
  free : Mode
  won failed : Bytes → Mode

slash_lem :
    (front stamp : Bytes)
    → contains 47 stamp ≡ false
    → after_last_slash (front ++ 47 ∷ stamp) ≡ some stamp
unfolding after_last_slash
slash_lem [] stamp h = rw (no_slash stamp h) refl
  where
    no_slash : (s : Bytes) → contains 47 s ≡ false → after_last_slash s ≡ none
    no_slash [] e = refl
    no_slash (c ∷ s) e = ground (arith, no_slash s)
slash_lem (c ∷ front) stamp h = rw (slash_lem front stamp h) refl

module _ (K : Calendar) (J : Json) (S : Scheduler) where
  open K use {Location, claim_stamp, parse-stamp, stamp_has_no_slash, stamp_is_not_empty}

  -- The key of a fire inside the catch-up window of a time, and of one that has expired.
  abbrev pub Fresh : ℕ → Bytes → Type 0
  Fresh now k = (at : ℕ) → claim_key_time K J S k ≡ some at → now < at + catch_up S

  abbrev pub Expired : ℕ → Bytes → Type 0
  Expired now k = (at : ℕ) × (claim_key_time K J S k ≡ some at) × (at + retain S < now)

  abbrev pub after_failure : Bool → Bytes → Mode
  after_failure false k = free
  after_failure true k = failed k

  unfoldable pub Safe : ℕ → Mode → Program → Type 0
  Safe now free (done last) = Unit
  Safe now free (get_value k f) = (r : Result (Option Bytes)) → Safe now free (f r)
  Safe now free (scan p f) = (r : Result Table) → Safe now free (f r)
  Safe now free (put k v f) = (r : Result (Unit {0})) → Safe now free (f r)
  Safe now free (delete k f) = Expired now k × ((r : Result (Unit {0})) → Safe now free (f r))
  Safe now free (claim k v f) =
      Fresh now k
      × ((e : Error) → Safe now free (f (err e)))
      × Safe now free (f (ok false))
      × Safe now (won k) (f (ok true))
  Safe now free (submit k c i f) = ⊥
  Safe now free (read_now f) = ⊥
  Safe now (won k) (submit j c i f) =
      (j ≡ k)
      × ((x : Bytes) → Safe now free (f (ok x)))
      × ((e : Error) → Safe now (after_failure S.retry_failed_submit k) (f (err e)))
  Safe now (won k) _ = ⊥
  Safe now (failed k) (delete j f) = (j ≡ k) × ((r : Result (Unit {0})) → Safe now free (f r))
  Safe now (failed k) _ = ⊥

  -- A pass that has not read the time: it only lists.
  unfoldable pub Early : Program → Type 0
  Early (done last) = Unit
  Early (scan p f) = (r : Result Table) → Early (f r)
  Early (read_now f) = (now : ℕ) → Safe now free (f now)
  Early _ = ⊥

  abbrev pub SafeAt : Option ℕ → Mode → Program → Type 0
  SafeAt none m p = Early p × (m ≡ free)
  SafeAt (some now) m p = Safe now m p

  -- The key of a fire that can be read holds the minute of the fire.
  claim_key_time_lem :
      (id : Bytes) (at u : ℕ)
      → claim_key_time K J S (claim_key K J S id at) ≡ some u
      → u ≡ at / 60 * 60
  unfolding claim_key_time claim_key
  claim_key_time_lem id at u h = parse-stamp at u (
      rw
        (
          slash_lem (prefix S ++ (claim_part ++ id)) (claim_stamp at) (stamp_has_no_slash at),
          stamp_is_not_empty at,
          claim_key_time,
        )
        at h)

  put_watermark-Safe :
      (id : Bytes) (at now : ℕ) (after : Program)
      → Safe now free after
      → Safe now free (put_watermark K J S id at (λ _. after))
  unfolding Safe
  put_watermark-Safe id at now after h r = h

  release-Safe :
      (retry : Bool) (key : Bytes) (now : ℕ) (after : Program)
      → Safe now free after
      → Safe now (after_failure retry key) (Scheduler.release K J S retry key after)
  unfolding Safe
  release-Safe false key now after h = h
  release-Safe true key now after h = (refl, λ r. h)

  record_instance-Safe :
      (o : Option Bytes) (key : Bytes) (now : ℕ) (after : Program)
      → Safe now free after
      → Safe now free (record_instance K J S o key after)
  unfolding Safe
  record_instance-Safe none key now after h = h
  record_instance-Safe (some e) key now after h = λ r. h

  claim_encoded-Safe :
      (o : Option Bytes) (s : Schedule) (at now : ℕ) (key : Bytes)
      (after : Result (Unit {0}) → Program)
      → Fresh now key
      → ((r : Result (Unit {0})) → Safe now free (after r))
      → Safe now free (claim_encoded K J S s at key after o)
  unfolding Safe
  claim_encoded-Safe none s at now key after fresh h = h _
  claim_encoded-Safe (some encoded) s at now key after fresh h = (
    fresh,
    λ e. h (err e),
    h (ok tt),
    (
      refl,
      λ x. record_instance-Safe _ key now (after (ok tt)) (h (ok tt)),
      λ e. release-Safe S.retry_failed_submit key now (after (err e)) (h (err e)),
    ),
  )

  -- A fire inside the window is claimed before it is submitted, and only released if that failed.
  fire-Safe :
      (s : Schedule) (at now : ℕ) (after : Result (Unit {0}) → Program)
      → Fresh now (claim_key K J S s.id at)
      → ((r : Result (Unit {0})) → Safe now free (after r))
      → Safe now free (fire K J S s at after)
  unfolding fire
  fire-Safe s at now after fresh h =
      claim_encoded-Safe _ s at now (claim_key K J S s.id at) after fresh h

  after_fire-Safe :
      (s : Schedule) (at now : ℕ) (last_round : Bool) (go_on after : Program)
      → Safe now free go_on
      → Safe now free after
      → (r : Result (Unit {0})) → Safe now free (after_fire K J S s at last_round go_on after r)
  after_fire-Safe s at now last_round go_on after hg ha (err e) =
      put_watermark-Safe s.id (at - 60) now after ha
  after_fire-Safe s at now true go_on after hg ha (ok u) = put_watermark-Safe s.id at now after ha
  after_fire-Safe s at now false go_on after hg ha (ok u) = hg

  at_fire-Safe :
      (s : Schedule) (now at : ℕ) (last_round : Bool) (go_on after : Program) (in_future : Bool)
      → Fresh now (claim_key K J S s.id at)
      → Safe now free go_on
      → Safe now free after
      → Safe now free (at_fire K J S s now at last_round go_on after in_future)
  at_fire-Safe s now at last_round go_on after true fresh hg ha =
      put_watermark-Safe s.id now now after ha
  at_fire-Safe s now at last_round go_on after false fresh hg ha =
      fire-Safe s at now _ fresh (after_fire-Safe s at now last_round go_on after hg ha)

  module _ (steady : (loc : Location) → IsSteady K loc) where
    -- The cursor never falls behind the catch-up window.
    run_fires-Safe :
        (rounds : ℕ) (s : Schedule) (spec : Spec) (loc : Location) (now cursor : ℕ)
        (after : Program)
        → now ≤ cursor + catch_up S
        → Safe now free after
        → Safe now free (run_fires K J S rounds s spec loc now cursor after)
    unfolding run_fires
    run_fires-Safe zero s spec loc now cursor after recent ha =
        put_watermark-Safe s.id now now after ha
    run_fires-Safe (suc rounds) s spec loc now cursor after recent ha =
        elim (Option-cases (next_fire K spec loc cursor)) [
          | inl no_fire ↦ rw (no_fire, run_fires) (put_watermark-Safe s.id now now after ha)
          | inr (at, found) ↦
              let (later, whole) = next_fire-IsAfter K loc (steady loc) spec cursor at found in
              rw (found, run_fires)
                (at_fire-Safe s now at (rounds == 0) _ after (ltb now at)
                  (λ u e. omega (arith, claim_key_time_lem s.id at u e))
                  (run_fires-Safe rounds s spec loc now at after (omega arith) ha) ha)
        ]

    from_mark-Safe :
        (s : Schedule) (spec : Spec) (loc : Location) (now : ℕ) (after : Program)
        → Safe now free after
        → (r : Result (Option Bytes)) → Safe now free (from_mark K J S s spec loc now after r)
    from_mark-Safe s spec loc now after ha (err e) = ha
    from_mark-Safe s spec loc now after ha (ok none) = put_watermark-Safe s.id now now after ha
    from_mark-Safe s spec loc now after ha (ok (some value)) =
        run_fires-Safe max_fires_per_schedule_per_tick s spec loc now _ after
          (not_stale_range _ now) ha
      where
        not_stale_range : (from at : ℕ) → at ≤ not_stale K J S from at + catch_up S
        not_stale_range from at = ground arith

    run_parsed-Safe :
        (s : Schedule) (now : ℕ) (after : Program) (r : Result (Spec × Location))
        → Safe now free after
        → Safe now free (Scheduler.run_parsed K J S s now after r)
    unfolding Safe
    run_parsed-Safe s now after (err e) ha = ha
    run_parsed-Safe s now after (ok (spec, loc)) ha = from_mark-Safe s spec loc now after ha

    run_enabled-Safe :
        (disabled : Bool) (s : Schedule) (now : ℕ) (after : Program)
        → Safe now free after
        → Safe now free (Scheduler.run_enabled K J S s now after disabled)
    unfolding run_schedule
    run_enabled-Safe true s now after ha = ha
    run_enabled-Safe false s now after ha = run_parsed-Safe s now after (parsed K s) ha

    run_all-Safe :
        (list : List Schedule) (now : ℕ) (after : Program)
        → Safe now free after
        → Safe now free (run_all K J S list now after)
    unfolding run_all
    run_all-Safe [] now after ha = ha
    run_all-Safe (s ∷ rest) now after ha =
        run_enabled-Safe s.disabled s now _ (run_all-Safe rest now after ha)

  is_old_lem :
      (o : Option ℕ) (now : ℕ)
      → is_old K J S o now ≡ true
      → (at : ℕ) × (o ≡ some at) × (at + retain S < now)
  is_old_lem none now h = absurd (ground arith)
  is_old_lem (some at) now h = (at, refl, omega (arith, ltb→lt at (now - retain S) h))

  prune_key-Safe :
      (expired : Bool) (key : Bytes) (now : ℕ) (after : Program)
      → is_old K J S (claim_key_time K J S key) now ≡ expired
      → Safe now free after
      → Safe now free (Scheduler.prune_key K J S expired key after)
  unfolding Safe
  prune_key-Safe true key now after e ha = (is_old_lem _ now e, λ r. ha)
  prune_key-Safe false key now after e ha = ha

  prune_keys-Safe :
      (t : Table) (now : ℕ) (after : Program)
      → Safe now free after
      → Safe now free (prune_keys K J S t now after)
  unfolding prune_keys
  prune_keys-Safe [] now after ha = ha
  prune_keys-Safe (pair ∷ rest) now after ha =
      prune_key-Safe _ pair.key now _ refl (prune_keys-Safe rest now after ha)

  prune_scanned-Safe :
      (now : ℕ) (after : Program)
      → Safe now free after
      → (r : Result Table) → Safe now free (Scheduler.prune_scanned K J S now after r)
  prune_scanned-Safe now after ha (err e) = ha
  prune_scanned-Safe now after ha (ok pairs) = prune_keys-Safe pairs now after ha

  maybe_prune-Safe :
      (due : Bool) (now : ℕ) (last : Option ℕ)
      → Safe now free (Scheduler.maybe_prune K J S due now last)
  unfolding Safe prune_claims
  maybe_prune-Safe false now last = tt
  maybe_prune-Safe true now last = prune_scanned-Safe now (done (some now)) tt

  -- A pass claims fires inside the catch-up window only, submits only what it has claimed, and
  -- deletes only claims that have expired or whose submission failed.
  pub tick-Early : ((loc : Location) → IsSteady K loc) → (last : Option ℕ) → Early (tick K J S last)
  unfolding Early tick
  tick-Early steady last (err e) = tt
  tick-Early steady last (ok pairs) =
      λ now. run_all-Safe steady (list_schedules K J S pairs) now _ (maybe_prune-Safe _ now last)
