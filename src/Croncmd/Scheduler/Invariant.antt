-- ===== src/Croncmd/Scheduler/Invariant.antt =====
-- examples/croncmd: what holds of the shared store and of every scheduler in every reachable
-- state.
use mathlib.Core.Path.{subst}
use libp2p_kv_raft.Base.{
  ℕ, ◌+◌, ◌*◌, ◌≤◌, ◌≡◌, ◌≢◌, refl, sym, ◌∙◌, arith, ◌⊎◌, inl, inr, Bool, true, false, ◌==◌, ltb,
  if◌then◌else◌, Bool-cases, Option, none, some, List, ◌∷◌, Bytes, equal, equal_iff, equal→eq,
}
use libp2p_kv_raft.Store.Rows.{Table, find}
use libp2p_kv_raft.Croncmd.Schedule.{Calendar, Json}
use libp2p_kv_raft.Croncmd.Program.{Program}
use libp2p_kv_raft.Croncmd.Scheduler.{Scheduler, catch_up, retain, claim_key_time}
use libp2p_kv_raft.Croncmd.Scheduler.Safe.{Mode, free, won, failed, Fresh, Expired, SafeAt}
use libp2p_kv_raft.Croncmd.Scheduler.System.{
  Attempt, World, Processes, update, with_store, with_attempt, tally,
}

abbrev pub Holds : Bytes → Mode → Type 0
Holds k free = ⊥
Holds k (won j) = j ≡ k
Holds k (failed j) = j ≡ k

abbrev pub set_mode : (ℕ → Mode) → ℕ → Mode → ℕ → Mode
set_mode modes i m j = if j == i then m else modes j

Holds-set_mode :
    (modes : ℕ → Mode) (i j : ℕ) (m : Mode) (k : Bytes)
    → Holds k (set_mode modes i m j)
    → ((j ≡ i) × Holds k m) ⊎ ((j ≢ i) × Holds k (modes j))
Holds-set_mode modes i j m k h = elim (Bool-cases (j == i)) [
  | inl same ↦ inl (ground arith, rw same at h)
  | inr other ↦ inr ((λ e. ground arith), rw other at h)
]

-- The floor under the retention
pub retain_floor : (S : Scheduler) → 2 * catch_up S ≤ retain S
unfolding retain
retain_floor S = ground arith

tally-attempt_ne :
    (retry : Bool) (k j : Bytes) (b : Bool) (list : List Attempt)
    → k ≢ j
    → tally retry k (record { fire_key = j; acknowledged = b } ∷ list) ≡ tally retry k list
unfolding tally
tally-attempt_ne retry k j b list h = ground (arith, equal_iff k j)

tally-attempt_le :
    (retry : Bool) (k j : Bytes) (b : Bool) (list : List Attempt)
    → tally retry k (record { fire_key = j; acknowledged = b } ∷ list) ≤ 1 + tally retry k list
unfolding tally
tally-attempt_le retry k j b list = ground arith

pub tally-retried :
    (k j : Bytes) (list : List Attempt)
    → tally true k (record { fire_key = j; acknowledged = false } ∷ list) ≡ tally true k list
unfolding tally
tally-retried k j list = ground arith

module _ (K : Calendar) (J : Json) (S : Scheduler) (ahead lag : ℕ)
    (room : ahead + lag ≤ catch_up S) where
  -- No scheduler that keeps to its clock will claim the fire of this key again.
  abbrev pub Dead : ℕ → Bytes → Type 0
  Dead g k = (at : ℕ) × (claim_key_time K J S k ≡ some at) × (at + catch_up S + lag ≤ g)

  abbrev pub Kept : World → Bytes → Type 0
  Kept w k = ((v : Bytes) × (find k w.store ≡ some v)) ⊎ Dead w.clock k

  abbrev pub counted : World → Bytes → ℕ
  counted w k = tally S.retry_failed_submit k w.attempts

  -- A time that was read is ahead by no more than the clocks are.
  abbrev pub IsRead : ℕ → Option ℕ → Type 0
  IsRead g none = Unit
  IsRead g (some now) = now ≤ g + ahead

  pub record Inv (w : World) (ps : Processes) : Type 0 where
    pub mode : ℕ → Mode
    pub safe : (i : ℕ) → SafeAt K J S (ps i).now (mode i) (ps i).rest
    pub read : (i : ℕ) → IsRead w.clock (ps i).now
    pub once : (k : Bytes) → counted w k ≤ 1
    pub kept : (k : Bytes) → 1 ≤ counted w k → Kept w k
    pub held : (i : ℕ) (k : Bytes) → Holds k (mode i) → (counted w k ≡ 0) × Kept w k
    pub alone : (i j : ℕ) (k : Bytes) → Holds k (mode i) → Holds k (mode j) → i ≡ j

  pub not_both :
      (w : World) (now : ℕ) (k : Bytes)
      → w.clock ≤ now + lag
      → Fresh K J S now k
      → find k w.store ≡ none
      → Kept w k
      → ⊥
  not_both w now k timely fresh absent (inl (v, there)) = ground arith
  not_both w now k timely fresh absent (inr (at, e, le)) = omega (arith, fresh at e)

  pub Expired-Dead : (now g : ℕ) (k : Bytes) → now ≤ g + ahead → Expired K J S now k → Dead g k
  Expired-Dead now g k read (at, e, lt) = (at, e, omega (arith, retain_floor S))

  -- One process goes on with another program, in another mode.
  module _ {w : World} {ps : Processes} (inv : Inv w ps) (i : ℕ) (now : Option ℕ)
      (rest : Program) where
    open inv use {mode, safe, read, once, kept, held, alone}

    abbrev pub next_processes : Processes
    next_processes = update ps i (record { now = now; rest = rest })

    moves :
        (v : World) (m : Mode)
        → v.clock ≡ w.clock
        → IsRead w.clock now
        → SafeAt K J S now m rest
        → ((k : Bytes) → counted v k ≤ 1)
        → ((k : Bytes) → 1 ≤ counted v k → Kept v k)
        → ((k : Bytes)
            → Holds k m
            → (counted v k ≡ 0) × Kept v k × ((j : ℕ) → j ≢ i → Holds k (mode j) → ⊥))
        → ((j : ℕ) (k : Bytes) → j ≢ i → Holds k (mode j) → (counted v k ≡ 0) × Kept v k)
        → Inv v next_processes
    moves v m same_clock read' safe' once' kept' new others = record {
      mode = set_mode mode i m;
      safe = λ j. elim (Bool-cases (j == i)) [
        | inl same ↦ rw same safe'
        | inr other ↦ rw other (safe j)
      ];
      read = λ j. elim (Bool-cases (j == i)) [
        | inl same ↦ rw same (subst (λ g. IsRead g now) (sym same_clock) read')
        | inr other ↦ rw other (subst (λ g. IsRead g (ps j).now) (sym same_clock) (read j))
      ];
      once = once';
      kept = kept';
      held = λ j k h. elim (Holds-set_mode mode i j m k h) [
        | inl (same, hm) ↦ ((new k hm).0, (new k hm).1)
        | inr (other, hj) ↦ others j k other hj
      ];
      alone = λ a b k ha hb. elim (Holds-set_mode mode i a m k ha) [
        | inl (sa, ma) ↦ elim (Holds-set_mode mode i b m k hb) [
          | inl (sb, mb) ↦ sa ∙ sym sb
          | inr (ob, mb) ↦ absurd ((new k ma).2 b ob mb)
        ]
        | inr (oa, ma) ↦ elim (Holds-set_mode mode i b m k hb) [
          | inl (sb, mb) ↦ absurd ((new k mb).2 a oa ma)
          | inr (ob, mb) ↦ alone a b k ma mb
        ]
      ];
    }

    -- It only changes the store, and keeps the keys that it does not hold itself.
    pub goes_free :
        (t : Table)
        → IsRead w.clock now
        → SafeAt K J S now free rest
        → ((k : Bytes) → (Holds k (mode i) → ⊥) → Kept w k → Kept (with_store w t) k)
        → Inv (with_store w t) next_processes
    goes_free t read' safe' keeps =
        moves (with_store w t) free refl read' safe' once
          (λ k one. keeps k (λ h. omega (arith, held i k h)) (kept k one)) (λ k h. absurd h)
          (λ j k other h. ((held j k h).0, keeps k (λ hi. other (alone j i k h hi)) (held j k h).1))

    -- It has won the claim of a key that nobody counted on.
    pub wins :
        (t : Table) (key : Bytes)
        → IsRead w.clock now
        → SafeAt K J S now (won key) rest
        → (Kept w key → ⊥)
        → Kept (with_store w t) key
        → ((k : Bytes) → Kept w k → Kept (with_store w t) k)
        → Inv (with_store w t) next_processes
    wins t key read' safe' lost there keeps =
        moves (with_store w t) (won key) refl read' safe' once (λ k one. keeps k (kept k one))
          (λ k e. (
            subst (λ c. counted w c ≡ 0) e (uncounted key (once key) (λ one. lost (kept key one))),
            subst (Kept (with_store w t)) e there,
            λ j other h. lost (subst (Kept w) (sym e) (held j k h).1),
          ))
          (λ j k other h. ((held j k h).0, keeps k (held j k h).1))
      where
        uncounted : (k : Bytes) → counted w k ≤ 1 → (1 ≤ counted w k → ⊥) → counted w k ≡ 0
        uncounted k le never = elim (Bool-cases (ltb 0 (counted w k))) [
          | inl more ↦ absurd (never (ground arith))
          | inr zero_count ↦ ground arith
        ]

    -- It has submitted for a key that it holds.
    pub submits :
        (key : Bytes) (acknowledged : Bool) (m : Mode)
        → IsRead w.clock now
        → SafeAt K J S now m rest
        → Holds key (mode i)
        → ((k : Bytes)
            → Holds k m
            → (key ≡ k) × (counted (with_attempt w key acknowledged) k ≡ counted w k))
        → Inv (with_attempt w key acknowledged) next_processes
    submits key acknowledged m read' safe' mine same =
        moves (with_attempt w key acknowledged) m refl read' safe'
          (λ k. elim (Bool-cases (equal k key)) [
            | inl e ↦
                let zero_count : counted w k ≡ 0 =
                  subst (λ c. counted w c ≡ 0) (sym (equal→eq k key e)) (held i key mine).0 in
                omega (arith, tally-attempt_le S.retry_failed_submit k key acknowledged w.attempts)
            | inr e ↦ omega (arith, unchanged k e, once k)
          ])
          (λ k one. elim (Bool-cases (equal k key)) [
            | inl e ↦ subst (Kept w) (sym (equal→eq k key e)) (held i key mine).1
            | inr e ↦ kept k (omega (arith, unchanged k e))
          ])
          (λ k h.
            let (e, c) = same k h in
            (
              c ∙ subst (λ j. counted w j ≡ 0) e (held i key mine).0,
              subst (Kept w) e (held i key mine).1,
              λ j other hj. other (alone j i key (subst (λ n. Holds n (mode j)) (sym e) hj) mine),
            ))
          (λ j k other h. elim (Bool-cases (equal k key)) [
            | inl e ↦
                absurd
                  (other (alone j i key (subst (λ n. Holds n (mode j)) (equal→eq k key e) h) mine))
            | inr e ↦ (unchanged k e ∙ (held j k h).0, (held j k h).1)
          ])
      where
        unchanged :
            (k : Bytes)
            → equal k key ≡ false
            → counted (with_attempt w key acknowledged) k ≡ counted w k
        unchanged k e =
            tally-attempt_ne S.retry_failed_submit k key acknowledged w.attempts
              (λ eq. ground (arith, equal_iff k key))
