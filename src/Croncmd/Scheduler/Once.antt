-- ===== src/Croncmd/Scheduler/Once.antt =====
-- examples/croncmd: a fire is submitted once, however many schedulers run.
use mathlib.Core.Path.{subst}
use libp2p_kv_raft.Base.{
  ℕ, ◌+◌, ◌≤◌, ◌≡◌, ◌≢◌, refl, sym, ◌∙◌, arith, ◌⊎◌, inl, inr, Bool, true, false, Bool-cases,
  Option, none, some, Option-cases, ◌∷◌, Bytes, equal, equal_iff, equal→eq, equal_refl,
}
use libp2p_kv_raft.Outcome.{Result, ok, err}
use libp2p_kv_raft.Store.Rows.{Table, find}
use libp2p_kv_raft.Store.Rows
use libp2p_kv_raft.Store.Rows.Laws.{find-put, find-remove_ne}
use libp2p_kv_raft.Croncmd.Schedule.{Calendar, Json}
use libp2p_kv_raft.Croncmd.Steady.{IsSteady}
use libp2p_kv_raft.Croncmd.Program.{Program, read_now}
use libp2p_kv_raft.Croncmd.Scheduler.{Scheduler, catch_up}
use libp2p_kv_raft.Croncmd.Scheduler.Safe.{
  Mode, free, won, failed, Safe, Fresh, Expired, Early, SafeAt, after_failure, tick-Early,
}
use libp2p_kv_raft.Croncmd.Scheduler.System.{
  World, Processes, Call, got, get_failed, scanned, scan_failed, has_put, put_failed, deleted,
  delete_failed, claim_answered, claim_unanswered, claim_failed, submitted, submit_failed, Step,
  IsTimely, time_passes, begins, reads, calls, Reach, start, later, update, with_store, tally,
  claim_key_in, claimed, initial_world, idle,
}
use libp2p_kv_raft.Croncmd.Scheduler.Invariant.{
  Holds, Dead, Kept, IsRead, Inv, not_both, Expired-Dead, goes_free, wins, submits, tally-retried,
}

module _ (K : Calendar) (J : Json) (S : Scheduler) (ahead lag : ℕ)
    (room : ahead + lag ≤ catch_up S) where
  Kept-put :
      (w : World) (j v k : Bytes)
      → Kept K J S ahead lag room w k
      → Kept K J S ahead lag room (with_store w (Rows.put j v w.store)) k
  Kept-put w j v k (inl (x, there)) = elim (Bool-cases (equal k j)) [
    | inl e ↦ inl (v, find-put k j v w.store ∙ rw e refl)
    | inr e ↦ inl (x, find-put k j v w.store ∙ rw e there)
  ]
  Kept-put w j v k (inr dead) = inr dead

  Kept-claim :
      (w : World) (j v k : Bytes)
      → Kept K J S ahead lag room w k
      → Kept K J S ahead lag room (with_store w (claim_key_in j v w.store).1) k
  Kept-claim w j v k h = elim (Option-cases (find j w.store)) [
    | inl absent ↦ rw absent (Kept-put w j v k h)
    | inr (x, there) ↦ rw there h
  ]

  -- A deletion harms no other key.
  Kept-remove :
      (w : World) (j k : Bytes)
      → (k ≢ j) ⊎ Dead K J S ahead lag room w.clock k
      → Kept K J S ahead lag room w k
      → Kept K J S ahead lag room (with_store w (Rows.remove j w.store)) k
  Kept-remove w j k (inr dead) h = inr dead
  Kept-remove w j k (inl other) (inr dead) = inr dead
  Kept-remove w j k (inl other) (inl (x, there)) =
      inl (x, find-remove_ne k j w.store (ground (arith, equal_iff k j)) ∙ there)

  module _ {w : World} {ps : Processes} (inv : Inv K J S ahead lag room w ps) (i now : ℕ)
      (read : now ≤ w.clock + ahead) (timely : w.clock ≤ now + lag) where
    -- A call that leaves its scheduler free.
    idles :
        (p : Program) (t : Table)
        → Safe K J S now free p
        → ((k : Bytes)
            → Kept K J S ahead lag room w k
            → Kept K J S ahead lag room (with_store w t) k)
        → Inv K J S ahead lag room
            (with_store w t)
            (update ps i (record { now = some now; rest = p }))
    idles p t safe keeps =
        goes_free K J S ahead lag room inv i (some now) p t read safe (λ k other h. keeps k h)

    -- A claim is won if its key was absent, and then nobody counted on the key.
    claim-Inv :
        (key v : Bytes) (f : Result Bool → Program) (o : Option Bytes)
        → find key w.store ≡ o
        → Fresh K J S now key
        → Safe K J S now free (f (ok false))
        → Safe K J S now (won key) (f (ok true))
        → Inv K J S ahead lag room
            (with_store w (claimed o key v w.store).1)
            (update ps i (record { now = some now; rest = f (ok (claimed o key v w.store).0) }))
    claim-Inv key v f (some x) e fresh safe_lost safe_won = idles _ w.store safe_lost (λ k h. h)
    claim-Inv key v f none e fresh safe_lost safe_won =
        wins K J S ahead lag room inv i (some now) _ (Rows.put key v w.store) key read safe_won
          (not_both K J S ahead lag room w now key timely fresh e)
          (inl (v, find-put key key v w.store ∙ rw (equal_refl key) refl))
          (λ k h. Kept-put w key v k h)

    free-Inv :
        {q p : Program} {v : World}
        → Safe K J S now free q
        → Call w q v p
        → Inv K J S ahead lag room v (update ps i (record { now = some now; rest = p }))
    unfolding Safe
    free-Inv safe (got {k} {f}) = idles (f (ok (find k w.store))) w.store (safe _) (λ k h. h)
    free-Inv safe (get_failed e) = idles _ w.store (safe (err e)) (λ k h. h)
    free-Inv safe scanned = idles _ w.store (safe _) (λ k h. h)
    free-Inv safe (scan_failed e) = idles _ w.store (safe (err e)) (λ k h. h)
    free-Inv safe (has_put {k} {v} r) = idles _ _ (safe r) (λ j h. Kept-put w k v j h)
    free-Inv safe (put_failed e) = idles _ w.store (safe (err e)) (λ k h. h)
    free-Inv safe (deleted {k} r) =
        idles _ _ (safe.1 r) (λ j h. Kept-remove w k j (expired k safe.0 j) h)
      where
        expired :
            (key : Bytes)
            → Expired K J S now key
            → (j : Bytes) → (j ≢ key) ⊎ Dead K J S ahead lag room w.clock j
        expired key old j = elim (Bool-cases (equal j key)) [
          | inl e ↦ inr (
              subst (Dead K J S ahead lag room w.clock) (sym (equal→eq j key e))
                (Expired-Dead K J S ahead lag room now w.clock key read old))
          | inr e ↦ inl (λ eq. ground (arith, equal_iff j key))
        ]
    free-Inv safe (delete_failed e) = idles _ w.store (safe.1 (err e)) (λ k h. h)
    free-Inv safe (claim_answered {k} {v} {f}) =
        claim-Inv k v f (find k w.store) refl safe.0 safe.2 safe.3
    free-Inv safe (claim_unanswered {k} {v} e) = idles _ _ (safe.1 e) (Kept-claim w k v)
    free-Inv safe (claim_failed e) = idles _ w.store (safe.1 e) (λ k h. h)
    free-Inv safe (submitted x) = absurd safe
    free-Inv safe (submit_failed e) = absurd safe

    -- After a won claim comes the submission.
    won-Inv :
        {q p : Program} {v : World} (key : Bytes)
        → Holds key (inv.mode i)
        → Safe K J S now (won key) q
        → Call w q v p
        → Inv K J S ahead lag room v (update ps i (record { now = some now; rest = p }))
    unfolding Safe
    won-Inv key mine safe (got {k} {f}) = absurd safe
    won-Inv key mine safe (get_failed e) = absurd safe
    won-Inv key mine safe scanned = absurd safe
    won-Inv key mine safe (scan_failed e) = absurd safe
    won-Inv key mine safe (has_put r) = absurd safe
    won-Inv key mine safe (put_failed e) = absurd safe
    won-Inv key mine safe (deleted r) = absurd safe
    won-Inv key mine safe (delete_failed e) = absurd safe
    won-Inv key mine safe claim_answered = absurd safe
    won-Inv key mine safe (claim_unanswered e) = absurd safe
    won-Inv key mine safe (claim_failed e) = absurd safe
    won-Inv key mine safe (submitted {k} x) =
        submits K J S ahead lag room inv i (some now) _ k true free read (safe.1 x)
          (subst (λ j. Holds j (inv.mode i)) (sym safe.0) mine) (λ j h. absurd h)
    won-Inv key mine safe (submit_failed {k} e) =
        submits K J S ahead lag room inv i (some now) _ k false _ read (safe.2 e)
          (subst (λ j. Holds j (inv.mode i)) (sym safe.0) mine)
          (λ j h. let (e, same) = retried S.retry_failed_submit j h in (safe.0 ∙ e, same))
      where
        retried :
            (b : Bool) (j : Bytes)
            → Holds j (after_failure K J S b key)
            → (key ≡ j)
              × (tally b j (record { fire_key = k; acknowledged = false } ∷ w.attempts)
                  ≡ tally b j w.attempts)
        retried false j h = absurd h
        retried true j h = (h, tally-retried j k w.attempts)

    -- After a failed submission comes the release of its claim.
    failed-Inv :
        {q p : Program} {v : World} (key : Bytes)
        → Holds key (inv.mode i)
        → Safe K J S now (failed key) q
        → Call w q v p
        → Inv K J S ahead lag room v (update ps i (record { now = some now; rest = p }))
    unfolding Safe
    failed-Inv key mine safe (got {k} {f}) = absurd safe
    failed-Inv key mine safe (get_failed e) = absurd safe
    failed-Inv key mine safe scanned = absurd safe
    failed-Inv key mine safe (scan_failed e) = absurd safe
    failed-Inv key mine safe (has_put r) = absurd safe
    failed-Inv key mine safe (put_failed e) = absurd safe
    failed-Inv key mine safe (deleted {k} r) =
        goes_free K J S ahead lag room inv i (some now) _ _ read (safe.1 r) (λ j other h.
          Kept-remove w k j
            (inl (λ e. other (subst (λ n. Holds n (inv.mode i)) (sym safe.0 ∙ sym e) mine))) h)
    failed-Inv key mine safe (delete_failed e) = idles _ w.store (safe.1 (err e)) (λ k h. h)
    failed-Inv key mine safe claim_answered = absurd safe
    failed-Inv key mine safe (claim_unanswered e) = absurd safe
    failed-Inv key mine safe (claim_failed e) = absurd safe
    failed-Inv key mine safe (submitted x) = absurd safe
    failed-Inv key mine safe (submit_failed e) = absurd safe

    Call-Inv :
        {q p : Program} {v : World} (m : Mode)
        → inv.mode i ≡ m
        → Safe K J S now m q
        → Call w q v p
        → Inv K J S ahead lag room v (update ps i (record { now = some now; rest = p }))
    Call-Inv free e safe c = free-Inv safe c
    Call-Inv (won key) e safe c = won-Inv key (rw e refl) safe c
    Call-Inv (failed key) e safe c = failed-Inv key (rw e refl) safe c

  module _ {w : World} {ps : Processes} (inv : Inv K J S ahead lag room w ps) (i : ℕ) where
    -- A new pass frees its scheduler, whatever it was doing, and so does a pass that only lists.
    rests :
        (now : Option ℕ) (p : Program)
        → IsRead K J S ahead lag room w.clock now
        → SafeAt K J S now free p
        → Inv K J S ahead lag room w (update ps i (record { now = now; rest = p }))
    rests now p read safe =
        goes_free K J S ahead lag room inv i now p w.store read safe (λ k other h. h)

    listing-Inv :
        {q p : Program} {v : World}
        → Early K J S q
        → Call w q v p
        → Inv K J S ahead lag room v (update ps i (record { now = none; rest = p }))
    unfolding Early
    listing-Inv safe (got {k} {f}) = absurd safe
    listing-Inv safe (get_failed e) = absurd safe
    listing-Inv safe scanned = rests none _ tt (safe _, refl)
    listing-Inv safe (scan_failed e) = rests none _ tt (safe (err e), refl)
    listing-Inv safe (has_put r) = absurd safe
    listing-Inv safe (put_failed e) = absurd safe
    listing-Inv safe (deleted r) = absurd safe
    listing-Inv safe (delete_failed e) = absurd safe
    listing-Inv safe claim_answered = absurd safe
    listing-Inv safe (claim_unanswered e) = absurd safe
    listing-Inv safe (claim_failed e) = absurd safe
    listing-Inv safe (submitted x) = absurd safe
    listing-Inv safe (submit_failed e) = absurd safe

    at_time :
        (now : Option ℕ) {q p : Program} {v : World}
        → IsRead K J S ahead lag room w.clock now
        → IsTimely lag w.clock now
        → SafeAt K J S now (inv.mode i) q
        → Call w q v p
        → Inv K J S ahead lag room v (update ps i (record { now = now; rest = p }))
    at_time none read timely safe c = listing-Inv safe.0 c
    at_time (some now) read timely safe c = Call-Inv inv i now read timely (inv.mode i) refl safe c

    -- The time is read by a pass that has not read it before; no other program asks for it.
    read_now-Safe :
        (now : Option ℕ) (m : Mode) (f : ℕ → Program)
        → SafeAt K J S now m (read_now f)
        → (n : ℕ) → Safe K J S n free (f n)
    unfolding Safe Early
    read_now-Safe none m f safe n = safe.0 n
    read_now-Safe (some now) free f safe n = absurd safe
    read_now-Safe (some now) (won k) f safe n = absurd safe
    read_now-Safe (some now) (failed k) f safe n = absurd safe

  passes-Inv :
      {w : World} {ps : Processes} (g : ℕ)
      → w.clock ≤ g
      → Inv K J S ahead lag room w ps
      → Inv K J S ahead lag room (record w { clock = g }) ps
  passes-Inv {w} {ps} g later_time inv = record {
    mode = inv.mode;
    safe = inv.safe;
    read = λ i. still_read (ps i).now (inv.read i);
    once = inv.once;
    kept = λ k one. still k (inv.kept k one);
    held = λ i k h. ((inv.held i k h).0, still k (inv.held i k h).1);
    alone = inv.alone;
  }
    where
      still_read :
          (now : Option ℕ)
          → IsRead K J S ahead lag room w.clock now
          → IsRead K J S ahead lag room g now
      still_read none h = tt
      still_read (some now) h = omega arith

      still :
          (k : Bytes)
          → Kept K J S ahead lag room w k
          → Kept K J S ahead lag room (record w { clock = g }) k
      still k (inl there) = inl there
      still k (inr (at, e, le)) = inr (at, e, omega arith)

  Step-Inv :
      ((loc : K.Location) → IsSteady K loc)
      → {w v : World} {ps qs : Processes} → Step K J S ahead lag w ps v qs
      → Inv K J S ahead lag room w ps
      → Inv K J S ahead lag room v qs
  Step-Inv steady (time_passes g le) inv = passes-Inv g le inv
  Step-Inv steady (begins i last) inv = rests inv i none _ tt (tick-Early K J S steady last, refl)
  Step-Inv steady {ps = ps} (reads i now f e read) inv = rests inv i (some now) (f now) read (
      read_now-Safe inv i (ps i).now (inv.mode i) f
        (subst (SafeAt K J S (ps i).now (inv.mode i)) e (inv.safe i)) now)
  Step-Inv steady {ps = ps} (calls i timely c) inv =
      at_time inv i (ps i).now (inv.read i) timely (inv.safe i) c

  start-Inv :
      (t : Table) (g : ℕ)
      → Inv K J S ahead lag room (initial_world K J S ahead lag t g) (idle K J S ahead lag)
  unfolding Early tally
  start-Inv t g = record {
    mode = λ i. free;
    safe = λ i. (tt, refl);
    read = λ i. tt;
    once = λ k. omega arith;
    kept = λ k one. absurd (omega arith);
    held = λ i k h. absurd h;
    alone = λ i j k h hj. absurd h;
  }

  pub Reach-Inv :
      ((loc : K.Location) → IsSteady K loc)
      → {t : Table} {g : ℕ} {w : World} {ps : Processes} → Reach K J S ahead lag t g w ps
      → Inv K J S ahead lag room w ps
  Reach-Inv steady {t} {g} start = start-Inv t g
  Reach-Inv steady (later r s) = Step-Inv steady s (Reach-Inv steady r)

-- However many schedulers share a store and however their calls interleave, fail and are cut
-- short, no fire is submitted twice, in every reachable state: not at all where a failed submission
-- is not retried, and not once it was acknowledged where it is. Every location keeps one offset
-- from UTC, of whole minutes, so that there is no daylight saving. The clocks that schedulers read
-- are ahead by at most `ahead`, every call of a pass is made at most `lag` after the time that it
-- has read, once it has, and `ahead` and `lag` together are no more than the catch-up window.
pub submitted_once :
    (K : Calendar) (J : Json) (S : Scheduler) (ahead lag : ℕ)
    → ((loc : K.Location) → IsSteady K loc)
    → ahead + lag ≤ catch_up S
    → {t : Table} {g : ℕ} {w : World} {ps : Processes} → Reach K J S ahead lag t g w ps
    → (key : Bytes) → tally S.retry_failed_submit key w.attempts ≤ 1
submitted_once K J S ahead lag steady room r key =
    (Reach-Inv K J S ahead lag room steady r).once key
