-- ===== src/Channel/Record.antt =====
-- packages/channel/src/record.ts: sealed records with counters for nonces. The AEAD and the hash of
-- @noble are the record `Primitives`.
pub mod Delivery
pub mod Stream
use pherry.Base.{
  ℕ, suc, ◌+◌, ◌-◌, ◌/◌, ◌^◌, ◌<◌, ◌≡◌, ◌↔◌, refl, List, [], ◌∷◌, ◌++◌, Option, none, some, Bool,
  true, false, ltb, ◌==◌, ◌&&◌, if◌then◌else◌, arith, length, take, drop,
}
use pherry.Base.Words.{uint32_be, to_uint32}
use pherry.Channel.Keys.{constant_time_equal}

-- `decrypt` is `none` where @noble throws. The arguments are the key, the nonce and the text.
pub record Primitives : Type 0 where
  pub sha256 : List ℕ → List ℕ
  pub encrypt : List ℕ → List ℕ → List ℕ → List ℕ
  pub decrypt : List ℕ → List ℕ → List ℕ → Option (List ℕ)

abbrev pub nonce_prefix_bytes : ℕ
nonce_prefix_bytes = 16

abbrev pub tag_bytes : ℕ
tag_bytes = 16

-- `Direction`
pub data Direction : Type 0 where
  initiator_to_responder responder_to_initiator : Direction

abbrev pub direction_byte : Direction → ℕ
direction_byte initiator_to_responder = 0
direction_byte responder_to_initiator = 1

-- `DecryptError` and `ReplayError`
pub data RecordError : Type 0 where
  decrypt_error replay_error : RecordError

pub data Opened : Type 0 where
  fails : RecordError → Opened
  opens : List ℕ → Opened

-- `nonceFor`
unfoldable pub nonce_for : List ℕ → ℕ → List ℕ
nonce_for prefix counter = prefix ++ (uint32_be (counter / 2 ^ 32) ++ uint32_be (to_uint32 counter))

-- `Sealer`
pub record Sealer : Type 0 where
  pub key : List ℕ
  pub nonce_prefix : List ℕ
  pub counter : ℕ

-- `Opener`
pub record Opener : Type 0 where
  pub key : List ℕ
  pub nonce_prefix : List ℕ
  pub counter : ℕ
  pub last_tag : Option (List ℕ)

-- `recordTagEquals`
unfoldable pub record_tag_equals : List ℕ → List ℕ → Bool
record_tag_equals bytes tag =
    if ltb (length bytes) tag_bytes
    then false
    else constant_time_equal (drop (length bytes - tag_bytes) bytes) tag

-- Whether a record is an exact re-delivery, as far as the tag says.
unfoldable pub redelivered : Opener → List ℕ → Bool
redelivered o bytes = elim o.last_tag [ none ↦ false | some tag ↦ record_tag_equals bytes tag ]

module _ (k : Primitives) where
  -- `noncePrefix`
  pub nonce_prefix : List ℕ → Direction → List ℕ
  nonce_prefix session_id direction =
      take nonce_prefix_bytes (k.sha256 (session_id ++ direction_byte direction ∷ []))

  unfoldable pub new_sealer : List ℕ → List ℕ → Direction → Sealer
  new_sealer key session_id direction = record {
    key = key;
    nonce_prefix = nonce_prefix session_id direction;
    counter = 0;
  }

  unfoldable pub new_opener : List ℕ → List ℕ → Direction → Opener
  new_opener key session_id direction = record {
    key = key;
    nonce_prefix = nonce_prefix session_id direction;
    counter = 0;
    last_tag = none;
  }

  -- `seal`: `none` where the counter is no safe integer, and it throws.
  unfoldable pub seal : Sealer → List ℕ → Option (List ℕ × Sealer)
  seal s frame_bytes =
      if ltb s.counter (2 ^ 53)
      then some (
        k.encrypt s.key (nonce_for s.nonce_prefix s.counter) frame_bytes,
        record s { counter = suc s.counter },
      )
      else none

  -- `open`: what it returns or throws, and the opener after it.
  unfoldable pub open_record : Opener → List ℕ → Opened × Opener
  open_record o bytes =
      if redelivered o bytes
      then (fails replay_error, o)
      else elim (k.decrypt o.key (nonce_for o.nonce_prefix o.counter) bytes) [
        | none ↦ (fails decrypt_error, o)
        | some frame_bytes ↦ (
          opens frame_bytes,
          record o {
            counter = suc o.counter;
            last_tag = some (drop (length bytes - tag_bytes) bytes);
          },
        )
      ]
