-- ===== src/Croncmd/Catalog/Edits.antt =====
-- examples/croncmd/croncmd.go: the edits of a catalog, one after the other.
use mathlib.Core.Path.{fun_ext}
use libp2p_kv_raft.Base.{
  ◌≡◌, refl, ◌∙◌, ap, arith, ◌⊎◌, Bool-cases, inl, inr, Bool, false, if◌then◌else◌, Option, none,
  some, Option-cases, List, [], ◌∷◌, ◌++◌, Bytes, equal, All,
}
use libp2p_kv_raft.Outcome.{Result, ok, err, Error, no_schedule}
use libp2p_kv_raft.Store.Rows.{Table, find, IsSorted}
use libp2p_kv_raft.Store.Rows
use libp2p_kv_raft.Store.Rows.Laws.{find-put, find-remove, put-IsSorted, remove-IsSorted}
use libp2p_kv_raft.Croncmd.Schedule.{Schedule, Calendar, Json, validate}
use libp2p_kv_raft.Croncmd.Program.{Program}
use libp2p_kv_raft.Croncmd.Scheduler.{schedule_part, watermark_part}
use libp2p_kv_raft.Croncmd.Scheduler.System.{World, with_store}
use libp2p_kv_raft.Croncmd.Scheduler.Alone.{run_alone}
use libp2p_kv_raft.Croncmd.Catalog.{
  Catalog, prefix, schedule_key, put_schedule, get_schedule, delete_schedule, set_enabled,
  read_answer, with_enabled, after_get,
}
use libp2p_kv_raft.Croncmd.Catalog.Changes.{
  TextCodec, Edit, put_edit, delete_edit, enable_edit, Book, changed, enabled_in, change, changes,
  book, edit_program, edits_program,
}

Result-cases {ℓ} :
    {A : Type ℓ} (r : Result A) → ((e : Error) × (r ≡ err e)) ⊎ ((a : A) × (r ≡ ok a))
Result-cases (err e) = inl (e, refl)
Result-cases (ok a) = inr (a, refl)

equal-append : (p a b : Bytes) → equal (p ++ a) (p ++ b) ≡ equal a b
equal-append [] a b = refl
equal-append (c ∷ p) a b = ground (arith, equal-append p a b)

module _ (K : Calendar) (J : Json) (C : Catalog) where
  module _ (T : TextCodec J) (inst : Bytes) where
    abbrev pub IsTextEdit : Edit → Type 0
    IsTextEdit (put_edit s) = T.IsText s
    IsTextEdit (delete_edit id) = Unit {0}
    IsTextEdit (enable_edit id enabled) = Unit {0}

    -- A program that goes on with an answer leaves a book behind.
    abbrev Leaves :
        ((Result (Unit {0}) → Program) → Program) → Result (Unit {0}) × Book → World → Type 0
    Leaves p answer w =
        (v : World) × ((after : Result (Unit {0}) → Program)
          → run_alone inst (p after) w ≡ run_alone inst (after answer.0) v)
        × IsSorted v.store
        × (book K J C v ≡ answer.1)

    key_equal : (i j : Bytes) → equal (schedule_key C i) (schedule_key C j) ≡ equal i j
    key_equal i j =
        equal-append (prefix C) (schedule_part ++ i) (schedule_part ++ j)
        ∙ equal-append schedule_part i j

    -- A watermark is not a schedule.
    watermark_apart :
        (i id : Bytes) → equal (schedule_key C i) (prefix C ++ (watermark_part ++ id)) ≡ false
    watermark_apart i id = equal-append (prefix C) (schedule_part ++ i) (watermark_part ++ id)

    book-put :
        (s : Schedule) (b i : Bytes) (t : Table)
        → J.decode_schedule b ≡ some s
        → read_answer K J C (ok (find (schedule_key C i) (Rows.put (schedule_key C s.id) b t)))
          ≡ (if equal i s.id then ok s else read_answer K J C (ok (find (schedule_key C i) t)))
    book-put s b i t decodes =
        rw (find-put (schedule_key C i) (schedule_key C s.id) b t, key_equal i s.id)
          (elim (Bool-cases (equal i s.id)) [ inl e ↦ rw (e, decodes) refl | inr e ↦ rw e refl ])

    book-remove :
        (id i : Bytes) (t : Table)
        → IsSorted t
        → read_answer K J C (ok (find (schedule_key C i) (Rows.remove (schedule_key C id) t))) ≡ (
            if equal i id
            then err no_schedule
            else read_answer K J C (ok (find (schedule_key C i) t)))
    book-remove id i t sorted =
        rw (find-remove (schedule_key C i) (schedule_key C id) t sorted, key_equal i id)
          (elim (Bool-cases (equal i id)) [ inl e ↦ rw e refl | inr e ↦ rw e refl ])

    put-Leaves :
        (s : Schedule) (w : World)
        → T.IsText s
        → IsSorted w.store
        → Leaves (put_schedule K J C s) (changed (validate K s) s.id (ok s) (book K J C w)) w
    unfolding put_schedule run_alone
    put-Leaves s w text sorted = elim (Result-cases (validate K s)) [
      | inl (e, bad) ↦ (w, (λ after. rw (bad, put_schedule) refl), sorted, rw bad refl)
      | inr (u, good) ↦
          let (b, encodes, decodes) = T.round_trip s text in
          (
            with_store w (Rows.put (schedule_key C s.id) b w.store),
            (λ after. rw (good, encodes, run_alone) refl),
            put-IsSorted (schedule_key C s.id) b w.store sorted,
            rw good (fun_ext λ i. book-put s b i w.store decodes),
          )
    ]

    delete-Leaves :
        (id : Bytes) (w : World)
        → IsSorted w.store
        → Leaves (delete_schedule K J C id) (changed (ok tt) id (err no_schedule) (book K J C w)) w
    unfolding delete_schedule run_alone
    delete-Leaves id w sorted =
        let kept = Rows.remove (schedule_key C id) w.store in
        let mark = prefix C ++ (watermark_part ++ id) in
        let kept_sorted = remove-IsSorted (schedule_key C id) w.store sorted in
        (
          with_store w (Rows.remove mark kept),
          (λ after. refl),
          remove-IsSorted mark kept kept_sorted,
          fun_ext λ i.
              rw (find-remove (schedule_key C i) mark kept kept_sorted, watermark_apart i id)
                (book-remove id i w.store sorted),
        )

    answer-IsText : (o : Option Bytes) (s : Schedule) → read_answer K J C (ok o) ≡ ok s → T.IsText s
    answer-IsText none s e = absurd (ground arith)
    answer-IsText (some value) s e = elim (Option-cases (J.decode_schedule value)) [
      | inl not_parsed ↦ absurd (ground (arith, rw not_parsed at e))
      | inr (t, parses) ↦ T.decoded-IsText value s (ground (arith, rw parses at e))
    ]

    enabled-Leaves :
        (enabled : Bool) (r : Result Schedule) (w : World)
        → ((s : Schedule) → r ≡ ok s → T.IsText s)
        → IsSorted w.store
        → Leaves
            (λ after. after_get K J C enabled after r)
            (enabled_in K enabled r (book K J C w))
            w
    enabled-Leaves enabled (err e) w text sorted = (w, (λ after. refl), sorted, refl)
    enabled-Leaves enabled (ok s) w text sorted =
        put-Leaves (with_enabled enabled s) w (T.with_enabled-IsText enabled s (text s refl)) sorted

    edit-Leaves :
        (e : Edit) (w : World)
        → IsTextEdit e
        → IsSorted w.store
        → Leaves (edit_program K J C e) (change K e (book K J C w)) w
    unfolding change set_enabled get_schedule run_alone
    edit-Leaves (put_edit s) w text sorted = put-Leaves s w text sorted
    edit-Leaves (delete_edit id) w text sorted = delete-Leaves id w sorted
    edit-Leaves (enable_edit id enabled) w text sorted =
        enabled-Leaves enabled (book K J C w id) w
          (answer-IsText (find (schedule_key C id) w.store)) sorted

    edits-Leaves :
        (edits : List Edit) (w : World)
        → All IsTextEdit edits
        → IsSorted w.store
        → (v : World) × ((after : List (Result (Unit {0})) → Program)
            → run_alone inst (edits_program K J C edits after) w
              ≡ run_alone inst (after (changes K edits (book K J C w)).0) v)
          × IsSorted v.store
          × (book K J C v ≡ (changes K edits (book K J C w)).1)
    unfolding edits_program changes
    edits-Leaves [] w text sorted = (w, (λ after. refl), sorted, refl)
    edits-Leaves (e ∷ edits) w text sorted =
        let (u, runs, u_sorted, u_book) = edit-Leaves e w text.0 sorted in
        let (v, runs_on, v_sorted, v_book) = edits-Leaves edits u text.1 u_sorted in
        let r = (change K e (book K J C w)).0 in
        (
          v,
          (λ after.
              runs (λ a. edits_program K J C edits (λ answers. after (a ∷ answers)))
              ∙ (runs_on (λ answers. after (r ∷ answers))
                  ∙ ap (λ b. run_alone inst (after (r ∷ (changes K edits b).0)) v) u_book)),
          v_sorted,
          v_book ∙ ap (λ b. (changes K edits b).1) u_book,
        )

    -- The edits of a list, run one after the other, return the answers that the same changes of
    -- the book of schedules give, and leave the changed book behind: what Get answers, for every
    -- id, from then on. The table is sorted by key, the fields of a schedule put are text that
    -- encoding/json gives back, no call to the store fails and nobody else writes.
    pub edits-AreChanges :
        (edits : List Edit) (w : World)
        → All IsTextEdit edits
        → IsSorted w.store
        → (v : World) × ((after : List (Result (Unit {0})) → Program)
            → run_alone inst (edits_program K J C edits after) w
              ≡ run_alone inst (after (changes K edits (book K J C w)).0) v)
          × IsSorted v.store
          × ((id : Bytes) (after : Result Schedule → Program)
              → run_alone inst (get_schedule K J C id after) v
                ≡ run_alone inst (after ((changes K edits (book K J C w)).1 id)) v)
    unfolding get_schedule run_alone
    edits-AreChanges edits w text sorted =
        let (v, runs, v_sorted, same) = edits-Leaves edits w text sorted in
        (v, runs, v_sorted, λ id after. ap (λ b. run_alone inst (after (b id)) v) same)
