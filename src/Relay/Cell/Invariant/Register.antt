-- ===== src/Relay/Cell/Invariant/Register.antt =====
-- Registration in packages/relay-core/src/cell.ts keeps the invariant: `#beginRegistration`'s answer,
-- `#onProof`, and the replacement of a prior control connection.
use pherry.Base.{
  ℕ, ◌≡◌, ◌≢◌, ◌⊎◌, refl, sym, ap, ◌∙◌, inl, inr, false, List, none, some, ◌==◌, arith,
  Option-cases, Bool-cases, some_inj,
}
use pherry.Base.Maps.{
  lookup, insert, delete, lookup-delete-some, lookup-delete, lookup-insert-some, update_ne,
  update_self,
}
use pherry.Relay.Cell.State.{Cell, Conn, control_pending, control, set_conn, close_conn, host_key}
use pherry.Relay.Cell.Registration.{replace_host, register}
use pherry.Relay.Cell.Invariant.{IsHost, Inv, IsFree}
use pherry.Relay.Cell.Invariant.Cleanup.{send-Inv, delete_host-Inv}
use pherry.Relay.Cell.Invariant.Detach.{close_conn-Inv}
use pherry.Relay.Cell.Invariant.Idle.{idle-Inv}

insert_host-Inv :
    (s : Cell) (h c : ℕ) (m : List (ℕ × ℕ))
    → Inv (record s { hosts = delete h m })
    → IsHost h (s.conns c)
    → Inv (record s { hosts = insert h c m })
insert_host-Inv s h c m v new = record {
  sound = v.sound;
  hosts = λ j d e. elim (lookup-insert-some j h c m e) [
    | inl (same, q) ↦ rw (← same, ← q) new
    | inr (other, q) ↦ v.hosts j d (ground (arith, lookup-delete j h m))
  ];
  pending = v.pending;
  timers = v.timers;
  bridges = v.bridges;
  linked = v.linked;
  wired = v.wired;
}

replace_host_cases :
    (c h : ℕ) (s : Cell)
    → (replace_host c h s ≡ s)
      ⊎ ((previous : ℕ) × (lookup h s.hosts ≡ some previous)
          × (previous ≢ c)
          × (replace_host c h s ≡ close_conn previous s))
unfolding replace_host
replace_host_cases c h s = elim (Option-cases (lookup h s.hosts)) [
  | inl e ↦ inl (rw (e, replace_host) refl)
  | inr (previous, e) ↦ elim (Bool-cases (previous == c)) [
    | inl q ↦ inl (rw (e, replace_host) (rw q refl))
    | inr q ↦ inr (previous, e, (λ r. ground arith), rw (e, replace_host) (rw q refl))
  ]
]

-- Without its entry, the replaced connection is one that no map names.
previous_IsFree :
    {s : Cell} (h previous : ℕ)
    → Inv s
    → lookup h s.hosts ≡ some previous
    → IsFree previous (record s { hosts = delete h s.hosts })
previous_IsFree {s} h previous v e = record {
  not_host = λ j q.
      let (old, other) = lookup-delete-some j h s.hosts q in
      other (some_inj (sym (v.hosts h previous e).host_id ∙ (v.hosts j previous old).host_id));
  not_pending = λ t p q r.
      cc ((v.hosts h previous e).role, (v.pending t p q).role, ap (λ x. (s.conns x).role) r);
  not_bridged = λ i b q. (
    λ r. cc (
      (v.hosts h previous e).role,
      (v.bridges i b q).0.controller_role,
      ap (λ x. (s.conns x).role) r,
    ),
    λ r.
        cc (
          (v.hosts h previous e).role,
          (v.bridges i b q).0.host_role,
          ap (λ x. (s.conns x).role) r,
        ),
  );
}

-- What `replace_host` leaves: the entries, the connection that registers, and the invariant without
-- the entry.
replace_host-Inv :
    {s : Cell} (c h : ℕ)
    → Inv s
    → ((replace_host c h s).hosts ≡ s.hosts)
      × ((replace_host c h s).conns c ≡ s.conns c)
      × Inv (record (replace_host c h s) { hosts = delete h s.hosts })
unfolding close_conn
replace_host-Inv {s} c h v = elim (replace_host_cases c h s) [
  | inl e ↦ rw e (refl, refl, delete_host-Inv h v)
  | inr (previous, found, other, e) ↦ rw e (
    refl,
    update_ne s.conns previous c _ other,
    close_conn-Inv previous (previous_IsFree h previous v found) (delete_host-Inv h v),
  )
]

pub register-Inv :
    {s : Cell} (c h : ℕ) (key : List ℕ)
    → Inv s
    → (s.conns c).role ≡ control_pending
    → (s.conns c).host_id ≡ some h
    → (s.conns c).closed ≡ false
    → (s.conns c).challenge ≡ none
    → ((j : ℕ) → (s.conns c).awaiting ≢ host_key j)
    → Inv (register c h key s)
unfolding register
register-Inv {s} c h key v role host_id open_ challenge idle =
    let (hosts, same, w) = replace_host-Inv c h v in
    let r = replace_host c h s in
    let role' : (r.conns c).role ≡ control_pending = ap (λ x. x.role) same ∙ role in
    let sound = w.sound c in
    let conn : Conn = record (r.conns c) { data_key = some key; role = control } in
    let x : Inv (set_conn c conn (record r { hosts = delete h r.hosts })) =
      idle-Inv c conn (rw hosts w) (inl role')
        (record {
          fresh_ticket = λ q. cc;
          wait_ticket = λ t q. cc ((sound.wait_ticket t q).0, role');
          wait_key = λ j q. absurd (idle j (sym (ap (λ x. x.awaiting) same) ∙ q));
          challenged = λ _. ap (λ x. x.challenge) same ∙ challenge;
          bound = λ q. absurd (q (ap (λ x. x.challenge) same ∙ challenge));
          unaccepted = λ q. cc (sound.unaccepted q, role');
        })
        refl (inr refl) in
    send-Inv c _ (
      insert_host-Inv (set_conn c conn r) h c r.hosts x (
        rw (update_self r.conns c conn) (record {
          role = refl;
          host_id = ap (λ x. x.host_id) same ∙ host_id;
          alive = ap (λ x. x.closed) same ∙ open_;
          keyed = λ q. cc;
        })))
