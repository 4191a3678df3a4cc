-- ===== src/Modules/Nonces.antt =====
-- crates/vera-modules/src/native_account: the next nonce of each DID, in a key-value store. A
-- string is the list of its UTF-8 bytes, and a `u64` a number below 2 ^ 64.
mod Codec
pub mod Step
pub mod Replay
use Prim.Native.String.{String}
use hub_rs.Prelude.{
  ℕ, zero, suc, ◌+◌, ◌*◌, ◌/◌, ◌%◌, ◌^◌, Bool, true, false, not, Option, none, some, List, [], ◌∷◌,
  ◌++◌, ◌==◌, nat_eq, ltb, length, if◌then◌else◌,
}
use hub_rs.Text.{codes}
use hub_rs.Modules.Results.{Result, ok, err, ◌>>=◌}
use hub_rs.Modules.OrdMap.{Bytes, OrdMap}
use hub_rs.Modules.KvStore.{KvStore, get_ref, put}

pub data NonceError : Type 0 where
  mismatch : Bytes → ℕ → ℕ → NonceError
  overflow : Bytes → NonceError
  malformed : Bytes → NonceError

-- `NATIVE_NONCE_PREFIX`.
abbrev pub native_nonce_prefix : Bytes
native_nonce_prefix = codes "native_nonce/"

unfoldable pub native_nonce_key : Bytes → Bytes
native_nonce_key did = native_nonce_prefix ++ did

-- `u64::to_le_bytes`, in `count` bytes.
unfoldable pub to_le_bytes : (count : ℕ) → ℕ → Bytes
to_le_bytes zero n = []
to_le_bytes (suc count) n = n % 256 ∷ to_le_bytes count (n / 256)

-- `u64::from_le_bytes`.
unfoldable pub from_le_bytes : Bytes → ℕ
from_le_bytes [] = 0
from_le_bytes (b ∷ bytes) = b + 256 * from_le_bytes bytes

-- `u64::checked_add(1)`.
abbrev pub checked_successor : ℕ → Option ℕ
checked_successor n = if ltb (n + 1) (2 ^ 64) then some (n + 1) else none

-- The closure of `get_nonce`: the value has eight bytes or is malformed.
unfoldable pub read_nonce : Bytes → Option Bytes → Result NonceError ℕ
unfolding from_le_bytes
read_nonce did none = ok 0
read_nonce did (some bytes) =
    if length bytes == 8 then ok (from_le_bytes bytes) else err (malformed did)

module _ (M : OrdMap) where
  unfoldable pub get_nonce : Bytes → KvStore M → Result NonceError ℕ
  unfolding read_nonce native_nonce_key
  get_nonce did s = read_nonce did (get_ref M (native_nonce_key did) s)

  abbrev pub store_next : Bytes → Option ℕ → KvStore M → Result NonceError (Unit {0}) × KvStore M
  store_next did none s = (err (overflow did), s)
  store_next did (some next) s = (ok tt, put M (native_nonce_key did) (to_le_bytes 8 next) s)

  abbrev pub compare_nonce :
      Bytes → ℕ → Result NonceError ℕ → KvStore M → Result NonceError (Unit {0}) × KvStore M
  compare_nonce did tx_nonce (err e) s = (err e, s)
  compare_nonce did tx_nonce (ok expected) s =
      if not (tx_nonce == expected)
      then (err (mismatch did expected tx_nonce), s)
      else store_next did (checked_successor expected) s

  unfoldable pub check_and_increment :
      Bytes → ℕ → KvStore M → Result NonceError (Unit {0}) × KvStore M
  unfolding get_nonce native_nonce_key to_le_bytes
  check_and_increment did tx_nonce s = compare_nonce did tx_nonce (get_nonce did s) s
