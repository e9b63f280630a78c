-- ===== src/Store/Effects.antt =====
-- What writes do to the rows: the rows that are left where a call succeeds (on any database), and
-- that it does succeed (on a reliable one). One rule for each way to build a call.

use libp2p_kv_raft.Base.{◌≡◌, refl, ap, ◌∙◌, Bool, true, false, arith, Bytes, if◌then◌else◌}
use libp2p_kv_raft.Outcome.{Result, ok, err, Context}
use libp2p_kv_raft.Exec.{Exec, ◌>>◌, pure, continue, continue-eq-ok, wrap_exec, wrap_result}
use libp2p_kv_raft.Store.{get, or_not_found}
use libp2p_kv_raft.Store.Rows.{Table, find, put, remove}
use libp2p_kv_raft.Store.Writes.{set, del, with_tx, executed, open_tx, close_tx}
use libp2p_kv_raft.Store.Transaction.{set_ok, del_ok, with_tx_ok}
use libp2p_kv_raft.Store.Sqlite.{Database, Reply, done, IsReliable, HasReply}

module _ (D : Database) where
  open D use {Db, rows}

  -- Where `m` succeeds, the rows are `f` of what they were.
  pub record Effect (m : Exec Db (Unit {0})) (f : Table → Table) : Type 0 where
    pub rows_after : (s s' : Db) → m s ≡ (ok tt, s') → rows s' ≡ f (rows s)

  pub Effect-pure : Effect (pure tt) (λ t. t)
  Effect-pure = record { rows_after = λ s s' h. ground arith }

  pub Effect-set : (k v : Bytes) → Effect (set D k v) (put k v)
  Effect-set k v = record { rows_after = λ s s' h. set_ok D k v s tt s' h }

  pub Effect-del : (k : Bytes) → Effect (del D k) (remove k)
  Effect-del k = record { rows_after = λ s s' h. del_ok D k s tt s' h }

  pub Effect-if :
      (b : Bool) {m n : Exec Db (Unit {0})} {f g : Table → Table}
      → Effect m f
      → Effect n g
      → Effect (if b then m else n) (λ t. if b then f t else g t)
  Effect-if true p q = p
  Effect-if false p q = q

  pub Effect-seq :
      {m n : Exec Db (Unit {0})} {f g : Table → Table}
      → Effect m f
      → Effect n g
      → Effect (m >> n) (λ t. g (f t))
  Effect-seq {m} {n} {f} {g} a b = record {
    rows_after = λ s s' h.
        let (u, s1, p, q) = continue-eq-ok (m s) (λ _. n) h in
        b.rows_after s1 s' q ∙ ap g (a.rows_after s s1 p);
  }

  pub Effect-wrap :
      {m : Exec Db (Unit {0})} {f : Table → Table} (c : Context)
      → Effect m f
      → Effect (wrap_exec c m) f
  Effect-wrap {m} {f} c a = record { rows_after = λ s s' h. a.rows_after s s' (inner (m s) s' h) }
    where
      inner :
          (r : Result (Unit {0}) × Db) (s' : Db) → wrap_result c r ≡ (ok tt, s') → r ≡ (ok tt, s')
      inner (ok u, s1) s' h = h
      inner (err e, s1) s' h = absurd (ground arith)

  pub Effect-with_tx :
      {m : Exec Db (Unit {0})} {f : Table → Table} → Effect m f → Effect (with_tx D m) f
  Effect-with_tx {m} {f} a = record {
    rows_after = λ s s' h.
        let (tx, tx', p, q, r) = with_tx_ok D m s s' h in r ∙ a.rows_after tx tx' q ∙ ap f p;
  }

  -- `m` succeeds, with that effect.
  pub record Runs (m : Exec Db (Unit {0})) (f : Table → Table) : Type 0 where
    pub outcome : (s : Db) → (s' : Db) × (m s ≡ (ok tt, s')) × (rows s' ≡ f (rows s))

  pub Runs-pure : Runs (pure tt) (λ t. t)
  Runs-pure = record { outcome = λ s. (s, refl, refl) }

  pub Runs-if :
      (b : Bool) {m n : Exec Db (Unit {0})} {f g : Table → Table}
      → Runs m f
      → Runs n g
      → Runs (if b then m else n) (λ t. if b then f t else g t)
  Runs-if true p q = p
  Runs-if false p q = q

  pub Runs-seq :
      {m n : Exec Db (Unit {0})} {f g : Table → Table}
      → Runs m f
      → Runs n g
      → Runs (m >> n) (λ t. g (f t))
  Runs-seq {m} {n} {f} {g} a b = record {
    outcome = λ s.
        let (s1, p, q) = a.outcome s in
        let (s2, p2, q2) = b.outcome s1 in
        (s2, ap (λ (r : Result (Unit {0}) × Db). continue r (λ _. n)) p ∙ p2, q2 ∙ ap g q);
  }

  pub Runs-wrap :
      {m : Exec Db (Unit {0})} {f : Table → Table} (c : Context) → Runs m f → Runs (wrap_exec c m) f
  Runs-wrap {m} {f} c a = record {
    outcome = λ s.
        let (s1, p, q) = a.outcome s in
        (s1, ap (λ (r : Result (Unit {0}) × Db). wrap_result c r) p, q);
  }

module _ (D : Database) (R : IsReliable D) where
  open D use {Db, rows}

  executed_runs :
      (s : Db) (r : Reply Db)
      → HasReply r
      → (s' : Db) × (executed s r ≡ (ok tt, s')) × (r ≡ done s')
  executed_runs s r (s', e) = (s', ap (λ (q : Reply Db). executed s q) e, e)

  pub Runs-set : (k v : Bytes) → Runs D (set D k v) (put k v)
  unfolding set
  Runs-set k v = record {
    outcome = λ s.
        let (s', p, q) = executed_runs s (D.upsert s k v) (R.upsert_runs s k v) in
        (s', p, D.upsert_lem s k v s' q);
  }

  pub Runs-del : (k : Bytes) → Runs D (del D k) (remove k)
  unfolding del
  Runs-del k = record {
    outcome = λ s.
        let (s', p, q) = executed_runs s (D.delete_key s k) (R.delete_key_runs s k) in
        (s', p, D.delete_key_lem s k s' q);
  }

  pub Runs-with_tx :
      {m : Exec Db (Unit {0})} {f : Table → Table} → Runs D m f → Runs D (with_tx D m) f
  unfolding with_tx
  Runs-with_tx {m} {f} a = record {
    outcome = λ s.
        let (tx, b) = R.begin_runs s in
        let (tx', p, q) = a.outcome tx in
        let (s', c) = R.commit_runs s tx' in
        (
          s',
          ap (λ (r : Reply Db). open_tx D m s r) b
              ∙ ap (λ (r : Result (Unit {0}) × Db). close_tx D s r) p
              ∙ ap (λ (r : Reply Db). executed s r) c,
          D.commit_lem s tx' s' c ∙ q ∙ ap f (D.begin_lem s tx b),
        );
  }

  -- A read of a reliable database is a lookup in its rows.
  pub get_runs : (s : Db) (k : Bytes) → get D s k ≡ or_not_found (find k (rows s))
  unfolding get
  get_runs s k =
      let (o, e) = R.select_value_runs s k in rw e (ap or_not_found (D.select_value_lem s k o e))

pub ruleset effect_rules =
    (Effect-pure, Effect-set, Effect-del, Effect-if, Effect-seq, Effect-wrap, Effect-with_tx)
