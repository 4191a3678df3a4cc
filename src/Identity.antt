-- ===== src/Identity.antt =====
-- crates/identity/src/did.rs: decentralized identifiers.
use hub_rs.Prelude.{
  ℕ, Bool, true, false, Option, none, some, ◌≡◌, ◌↔◌, arith, Eq, ◌==◌, nat_eq, list_eq, not, ◌&&◌,
  ◌||◌, leb, length, all, if◌then◌else◌,
}
use hub_rs.Text.{Text, codes, strip_prefix, starts_with}

-- The tuple struct `Did(String)`; its constructors other than `new` skip the validation.
pub record Did : Type 0 where
  pub as_str : Text

pub data Error : Type 0 where
  invalid_did : Error

pub data Result {ℓ} (A : Type ℓ) : Type ℓ where
  ok : A → Result A
  err : Error → Result A

abbrev pub did_key_prefix : Text
did_key_prefix = codes "did:key:"

abbrev pub did_opk_prefix : Text
did_opk_prefix = codes "did:opk:"

is_lower_hex : ℕ → Bool
is_lower_hex byte = (leb b'0' byte && leb byte b'9') || (leb b'a' byte && leb byte b'f')

is_provider_hash : Option Text → Bool
unfolding is_lower_hex
is_provider_hash none = false
is_provider_hash (some hash) = length hash == 64 && all is_lower_hex hash

-- `Did::new`.
unfoldable pub new : Text → Result Did
unfolding is_provider_hash strip_prefix starts_with
new s =
    let provider = is_provider_hash (strip_prefix did_opk_prefix s) in
    if not (starts_with did_key_prefix s) && not provider
    then err invalid_did
    else ok (record { as_str = s })

unfoldable pub did_beq : Did → Did → Bool
did_beq a b = a.as_str == b.as_str

pub did_beq_iff : (a b : Did) → (did_beq a b ≡ true) ↔ (a ≡ b)
unfolding did_beq
did_beq_iff a b = ground (arith, (list_eq {A = ℕ}).beq_iff a.as_str b.as_str)

instance abbrev pub did_eq : Eq Did
did_eq = record { beq = did_beq; beq_iff = did_beq_iff }
