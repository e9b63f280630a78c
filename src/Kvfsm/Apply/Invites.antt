-- ===== src/Kvfsm/Apply/Invites.antt =====
-- pkg/kvfsm/fsm.go, OpConsumeInvite and OpConsumeExecInvite: the one-time invites.
use libp2p_kv_raft.Base.{
  ℕ, ◌≡◌, refl, sym, ap, ◌∙◌, Bool, true, false, none, some, arith, Bytes, if◌then◌else◌,
}
use libp2p_kv_raft.Outcome.{
  Result, ok, err, wrap, consume_invite, consume_exec_invite, not_permitted, token_expired,
}
use libp2p_kv_raft.Exec.{◌>>=◌, pure, lift, guarded, continue}
use libp2p_kv_raft.Store
use libp2p_kv_raft.Store.Rows.{find, remove}
use libp2p_kv_raft.Store.Rows.Laws.{find-remove_self}
use libp2p_kv_raft.Store.Writes.{del}
use libp2p_kv_raft.Store.Transaction.{del_ok}
use libp2p_kv_raft.Store.Scan.{get_ok}
use libp2p_kv_raft.Store.Sqlite.{Database}
use libp2p_kv_raft.Shmevent.Invite.{ExecInvite, decode_exec_invite_record}
use libp2p_kv_raft.Kvfsm.Acl.{is_permitted_for_command}
use libp2p_kv_raft.Kvfsm.Apply

module _ (D : Database) where
  open D use {Db, rows}

  -- A delete, and the value that was read before it.
  del_value_ok :
      (key v v' : Bytes) (s s' : Db) (r : Result (Unit {0}) × Db)
      → del D key s ≡ r
      → continue r (λ _. pure v) ≡ (ok v', s')
      → (v ≡ v') × (rows s' ≡ remove key (rows s))
  del_value_ok key v v' s s' (ok u, s1) e h = (ground arith, del_ok D key s tt s' (ground arith))
  del_value_ok key v v' s s' (err x, s1) e h = (absurd (ground arith), absurd (ground arith))

  -- A key that was deleted is not found.
  gone_twice :
      (key v : Bytes) (s s' : Db) → rows s' ≡ remove key (rows s) → find key (rows s') ≡ some v → ⊥
  gone_twice key v s s' q f =
      let e : none ≡ some v =
        sym (find-remove_self key (rows s) (D.rows_sorted s)) ∙ (ap (find key) (sym q) ∙ f) in
      ground arith

  -- What a redemption of an exec invite has seen and done where it returns a value.
  abbrev pub IsRedemption : ℕ → Bytes → Bytes → Bytes → Db → Db → Type 0
  IsRedemption now key peer_id v s s' =
      (invite : ExecInvite) × (find key (rows s) ≡ some v)
      × (decode_exec_invite_record v ≡ ok invite)
      × (Apply.is_expired invite now ≡ false)
      × (is_permitted_for_command D s invite.command_id peer_id ≡ ok true)
      × (rows s' ≡ remove key (rows s))

  redeem_ok :
      (key peer_id v v' : Bytes) (invite : ExecInvite) (s s' : Db) (r : Result Bool)
      → is_permitted_for_command D s invite.command_id peer_id ≡ r
      → continue
          (wrap consume_exec_invite r, s)
          (λ permitted. guarded permitted not_permitted (del D key >>= λ _. pure v))
        ≡ (ok v', s')
      → (r ≡ ok true) × (v ≡ v') × (rows s' ≡ remove key (rows s))
  redeem_ok key peer_id v v' invite s s' (ok true) e h =
      let (p, q) = del_value_ok key v v' s s' (del D key s) refl h in (refl, p, q)
  redeem_ok key peer_id v v' invite s s' (ok false) e h =
      (absurd (ground arith), absurd (ground arith), absurd (ground arith))
  redeem_ok key peer_id v v' invite s s' (err x) e h =
      (absurd (ground arith), absurd (ground arith), absurd (ground arith))

  expire_not_ok :
      (key v' : Bytes) (s s' : Db) (r : Result (Unit {0}) × Db)
      → continue r (λ _. lift (err token_expired)) ≡ (ok v', s')
      → ⊥
  expire_not_ok key v' s s' (ok u, s1) h = ground arith
  expire_not_ok key v' s s' (err x, s1) h = ground arith

  -- A redemption of an exec invite that returns a value, on any database, found that value under
  -- the key; it is the record of an invite that was not expired at the entry's time, for a command
  -- that the peer may execute; and the rows left are those before without the key.
  pub redeemed_exec_invite :
      (now : ℕ) (key peer_id v : Bytes) (s s' : Db)
      → Apply.apply_consume_exec_invite D now key peer_id s ≡ (ok v, s')
      → IsRedemption now key peer_id v s s'
  unfolding Apply.apply_consume_exec_invite
  redeemed_exec_invite now key peer_id v s s' h = got (Store.get D s key) refl h
    where
      expiry :
          (v0 : Bytes) (invite : ExecInvite)
          → find key (rows s) ≡ some v0
          → decode_exec_invite_record v0 ≡ ok invite
          → (b : Bool) → Apply.is_expired invite now ≡ b
          → (if b then Apply.expire_invite D key else Apply.redeem_invite D key peer_id v0 invite) s
            ≡ (ok v, s')
          → IsRedemption now key peer_id v s s'
      expiry v0 invite f d true x h = absurd (expire_not_ok key v s s' (del D key s) h)
      expiry v0 invite f d false x h =
          let (p, e, q) =
            redeem_ok key peer_id v0 v invite s s'
              (is_permitted_for_command D s invite.command_id peer_id) refl h in
          (
            invite,
            f ∙ ap (λ (y : Bytes). some y) e,
            ap decode_exec_invite_record (sym e) ∙ d,
            x,
            p,
            q,
          )

      decoded :
          (v0 : Bytes) (r : Result ExecInvite)
          → find key (rows s) ≡ some v0
          → decode_exec_invite_record v0 ≡ r
          → continue
              (wrap consume_exec_invite r, s)
              (λ invite.
                if Apply.is_expired invite now
                then Apply.expire_invite D key
                else Apply.redeem_invite D key peer_id v0 invite)
            ≡ (ok v, s')
          → IsRedemption now key peer_id v s s'
      decoded v0 (ok invite) f d h = expiry v0 invite f d (Apply.is_expired invite now) refl h
      decoded v0 (err e) f d h = absurd (ground arith)

      got :
          (r : Result Bytes)
          → Store.get D s key ≡ r
          → continue
              (wrap consume_exec_invite r, s)
              (λ v0 t.
                continue
                  (wrap consume_exec_invite (decode_exec_invite_record v0), t)
                  (λ invite.
                    if Apply.is_expired invite now
                    then Apply.expire_invite D key
                    else Apply.redeem_invite D key peer_id v0 invite))
            ≡ (ok v, s')
          → IsRedemption now key peer_id v s s'
      got (ok v0) e h = decoded v0 (decode_exec_invite_record v0) (get_ok D s key v0 e) refl h
      got (err x) e h = absurd (ground arith)

  -- After a redemption of an exec invite that returned a value, none returns a value from the
  -- state that it left, whoever asks and whenever.
  pub exec_invite_once :
      (now now' : ℕ) (key peer_id peer_id' v v' : Bytes) (s s' s'' : Db)
      → Apply.apply_consume_exec_invite D now key peer_id s ≡ (ok v, s')
      → ¬ (Apply.apply_consume_exec_invite D now' key peer_id' s' ≡ (ok v', s''))
  exec_invite_once now now' key peer_id peer_id' v v' s s' s'' h h' =
      let (i, f, d, x, p, q) = redeemed_exec_invite now key peer_id v s s' h in
      let (i', f', d', x', p', q') = redeemed_exec_invite now' key peer_id' v' s' s'' h' in
      gone_twice key v' s s' q f'

  join_invite_ok :
      (key v : Bytes) (s s' : Db) (r : Result Bytes)
      → Store.get D s key ≡ r
      → continue (wrap consume_invite r, s) (λ v0. del D key >>= λ _. pure v0) ≡ (ok v, s')
      → (find key (rows s) ≡ some v) × (rows s' ≡ remove key (rows s))
  join_invite_ok key v s s' (ok v0) e h =
      let (p, q) = del_value_ok key v0 v s s' (del D key s) refl h in
      (get_ok D s key v0 e ∙ ap (λ (y : Bytes). some y) p, q)
  join_invite_ok key v s s' (err x) e h = (absurd (ground arith), absurd (ground arith))

  -- A join invite is consumed once: a consumption that returns a value found it under the key, and
  -- from the state that it leaves no consumption of the key returns a value.
  pub join_invite_once :
      (key v : Bytes) (s s' : Db)
      → Apply.apply_consume_invite D key s ≡ (ok v, s')
      → (find key (rows s) ≡ some v)
        × ((v' : Bytes) (s'' : Db) → ¬ (Apply.apply_consume_invite D key s' ≡ (ok v', s'')))
  unfolding Apply.apply_consume_invite
  join_invite_once key v s s' h =
      let (f, q) = join_invite_ok key v s s' (Store.get D s key) refl h in
      (
        f,
        λ v' s'' h'.
            let (f', q') = join_invite_ok key v' s' s'' (Store.get D s' key) refl h' in
            gone_twice key v' s s' q f',
      )
