-- ===== src/Relay/Cell/Invariant/Swap.antt =====
-- The invariant under a change of one connection that no map of
-- packages/relay-core/src/cell.ts names.
use pherry.Base.{ℕ, ◌<◌, ◌≡◌, ◌≢◌, ◌⊎◌, refl, sym, ap, ◌∙◌, inl, inr, none, some, arith, ℕ_discrete}
use pherry.Base.Maps.{lookup, update, update_self, update_ne}
use pherry.Relay.Cell.State.{Cell, Conn, Bridge, set_conn}
use pherry.Relay.Cell.Invariant.{IsSound, IsWired, Inv, IsFree}

-- The fields that the wiring reads are the same.
pub record KeepsWire (a b : Conn) : Type 0 where
  pub role : b.role ≡ a.role
  pub ticket : b.ticket ≡ a.ticket
  pub host_id : b.host_id ≡ a.host_id
  pub raw_peer : b.raw_peer ≡ a.raw_peer

pub record IsSwap (c : ℕ) (s : Cell) (conn : Conn) : Type 0 where
  pub free : IsFree c s
  pub sound : IsSound conn
  pub links : (conn.bridge ≡ none) ⊎ (conn.bridge ≡ (s.conns c).bridge)
  pub wires : (((s.conns c).raw_peer ≡ none) × (conn.raw_peer ≡ none)) ⊎ KeepsWire (s.conns c) conn

-- Nobody sends to a connection that sends to nobody.
pub unwired :
    {s : Cell} → Inv s → (c d : ℕ) → (s.conns c).raw_peer ≡ none → (s.conns d).raw_peer ≢ some c
unwired inv c d h e = cc ((inv.wired d c e).back)

KeepsWire-refl : (a : Conn) → KeepsWire a a
KeepsWire-refl a = record { role = refl; ticket = refl; host_id = refl; raw_peer = refl }

IsWired-KeepsWire :
    (c : ℕ) (a a' b b' : Conn) → KeepsWire a a' → KeepsWire b b' → IsWired c a b → IsWired c a' b'
IsWired-KeepsWire c a a' b b' k l w = record {
  ticketed = λ e. w.ticketed (sym k.ticket ∙ e);
  ticket = l.ticket ∙ w.ticket ∙ sym k.ticket;
  host_id = l.host_id ∙ w.host_id ∙ sym k.host_id;
  roles = ground arith;
  back = l.raw_peer ∙ w.back;
}

module _ {s : Cell} (inv : Inv s) (c : ℕ) (conn : Conn) (swap : IsSwap c s conn) where
  abbrev after : ℕ → Conn
  after = update s.conns c conn

  keeps : KeepsWire (s.conns c) conn → (j : ℕ) → KeepsWire (s.conns j) (after j)
  keeps k j = elim (ℕ_discrete c j) [
    | yes here ↦ rw (← here, update_self s.conns c conn) k
    | no there ↦ rw (update_ne s.conns c j conn there) (KeepsWire-refl (s.conns j))
  ]

  IsWired-swap :
      (((s.conns c).raw_peer ≡ none) × (conn.raw_peer ≡ none)) ⊎ KeepsWire (s.conns c) conn
      → (a d : ℕ) → (after a).raw_peer ≡ some d
      → IsWired a (after a) (after d)
  IsWired-swap (inr k) a d e =
      IsWired-KeepsWire a _ _ _ _ (keeps k a) (keeps k d)
        (inv.wired a d (sym (keeps k a).raw_peer ∙ e))
  IsWired-swap (inl (old, new)) a d e = elim (ℕ_discrete c a) [
    | yes here ↦ cc (new, rw (← here, update_self s.conns c conn) at e)
    | no there ↦
        let e' = rw (update_ne s.conns c a conn there) at e in
        let d_other : c ≢ d = λ q. unwired inv c a old (e' ∙ ap some (sym q)) in
        rw (update_ne s.conns c a conn there, update_ne s.conns c d conn d_other) (inv.wired a d e')
  ]

  linked-swap :
      (conn.bridge ≡ none) ⊎ (conn.bridge ≡ (s.conns c).bridge)
      → (j i : ℕ) → (after j).bridge ≡ some i
      → (i < s.next_bridge)
        × ((b : Bridge) → lookup i s.bridges ≡ some b → (b.controller ≡ j) ⊎ (b.host ≡ j))
  linked-swap l j i e = elim (ℕ_discrete c j) [
    | yes here ↦
        let e' = rw (← here, update_self s.conns c conn) at e in
        elim l [
          | inl none_left ↦ cc (none_left, e')
          | inr same ↦ rw (← here) (inv.linked c i (sym same ∙ e'))
        ]
    | no there ↦ inv.linked j i (rw (update_ne s.conns c j conn there) at e)
  ]

  pub set_conn-Inv : Inv (set_conn c conn s)
  set_conn-Inv = record {
    sound = λ j. elim (ℕ_discrete c j) [
      | yes here ↦ rw (← here, update_self s.conns c conn) swap.sound
      | no there ↦ rw (update_ne s.conns c j conn there) (inv.sound j)
    ];
    hosts = λ h d e.
        rw (update_ne s.conns c d conn (λ q. swap.free.not_host h (e ∙ ap some (sym q))))
          (inv.hosts h d e);
    pending = λ t p e.
        rw (update_ne s.conns c p.controller conn (λ q. swap.free.not_pending t p e (sym q)))
          (inv.pending t p e);
    timers = inv.timers;
    bridges = λ i b e.
        let (no_controller, no_host) = swap.free.not_bridged i b e in
        rw
          (
            update_ne s.conns c b.controller conn (λ q. no_controller (sym q)),
            update_ne s.conns c b.host conn (λ q. no_host (sym q)),
          )
          (inv.bridges i b e);
    linked = linked-swap swap.links;
    wired = IsWired-swap swap.wires;
  }
