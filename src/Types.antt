-- ===== src/Types.antt =====
-- types.go: response codes, statuses, results and the option structs of the meta commands.
pub mod Expiration
use go_memcache.Base.{ℕ, Bool, true, false, List, [], Option, none, Bytes}
use go_memcache.Base.Int.{ℤ, pos}
use go_memcache.Errors.{Err}

-- `Expiration` is an int64.
abbrev pub Seconds : Type 0
Seconds = ℤ

-- The codes that the client accepts; `readRawResponse` refuses any other.
pub data ResponseCode : Type 0 where
  header value miss not_stored exists not_found noop debug : ResponseCode

pub record Metadata : Type 0 where
  pub cas : Option ℕ
  pub ttl : Option ℤ
  pub size : Option ℕ
  pub client_flags : Option ℕ
  pub last_access : Option ℕ
  pub hit_before : Option Bool

abbrev pub no_metadata : Metadata
no_metadata = record {
  cas = none;
  ttl = none;
  size = none;
  client_flags = none;
  last_access = none;
  hit_before = none;
}

pub data GetStatus : Type 0 where
  unknown hit miss pending unchanged : GetStatus

pub data ValueState : Type 0 where
  unknown fresh stale missing : ValueState

pub data LeaseState : Type 0 where
  no_lease granted busy : LeaseState

pub record GetResult : Type 0 where
  pub key : Bytes
  pub status : GetStatus
  pub value : Bytes
  pub metadata : Metadata
  pub value_state : ValueState
  pub lease : LeaseState
  pub returned_key : Option Bytes
  pub opaque : Bytes

unfoldable pub is_hit : GetStatus → Bool
is_hit GetStatus.hit = true
is_hit _ = false

pub data MutationStatus : Type 0 where
  unknown applied not_found already_exists cas_mismatch : MutationStatus

pub record MutationResult : Type 0 where
  pub key : Bytes
  pub status : MutationStatus
  pub cas : Option ℕ
  pub size : Option ℕ
  pub returned_key : Option Bytes
  pub opaque : Bytes

unfoldable pub is_applied : MutationStatus → Bool
is_applied MutationStatus.applied = true
is_applied _ = false

pub record ArithmeticResult : Type 0 where
  pub key : Bytes
  pub status : MutationStatus
  pub value : ℕ
  pub has_value : Bool
  pub metadata : Metadata
  pub returned_key : Option Bytes
  pub opaque : Bytes

-- A `StoreMode` is a byte; `other` stands for the values that have no name.
pub data StoreMode : Type 0 where
  mode_set mode_add mode_replace mode_append mode_prepend : StoreMode
  other : ℕ → StoreMode

pub record MetaGetOptions : Type 0 where
  pub metadata_only : Bool
  pub return_cas : Bool
  pub return_ttl : Bool
  pub return_size : Bool
  pub return_last_access : Bool
  pub return_hit_before : Bool
  pub return_client_flags : Bool
  pub return_key : Bool
  pub touch : Option Seconds
  pub vivify_ttl : Option Seconds
  pub refresh_before : Option Seconds
  pub unless_cas : Option ℕ
  pub set_cas : Option ℕ
  pub no_lru_bump : Bool
  pub opaque : Bytes

abbrev pub no_get_options : MetaGetOptions
no_get_options = record {
  metadata_only = false;
  return_cas = false;
  return_ttl = false;
  return_size = false;
  return_last_access = false;
  return_hit_before = false;
  return_client_flags = false;
  return_key = false;
  touch = none;
  vivify_ttl = none;
  refresh_before = none;
  unless_cas = none;
  set_cas = none;
  no_lru_bump = false;
  opaque = [];
}

pub record MetaSetOptions : Type 0 where
  pub ttl : Seconds
  pub client_flags : ℕ
  pub mode : StoreMode
  pub compare_cas : Option ℕ
  pub set_cas : Option ℕ
  pub invalidate : Bool
  pub vivify_ttl : Option Seconds
  pub return_cas : Bool
  pub return_size : Bool
  pub return_key : Bool
  pub opaque : Bytes

abbrev pub no_set_options : MetaSetOptions
no_set_options = record {
  ttl = pos 0;
  client_flags = 0;
  mode = mode_set;
  compare_cas = none;
  set_cas = none;
  invalidate = false;
  vivify_ttl = none;
  return_cas = false;
  return_size = false;
  return_key = false;
  opaque = [];
}

pub record MetaDeleteOptions : Type 0 where
  pub compare_cas : Option ℕ
  pub set_cas : Option ℕ
  pub invalidate : Bool
  pub stale_for : Option Seconds
  pub drop_value : Bool
  pub return_key : Bool
  pub opaque : Bytes

abbrev pub no_delete_options : MetaDeleteOptions
no_delete_options = record {
  compare_cas = none;
  set_cas = none;
  invalidate = false;
  stale_for = none;
  drop_value = false;
  return_key = false;
  opaque = [];
}

pub record MetaArithmeticOptions : Type 0 where
  pub delta : ℕ
  pub decrement : Bool
  pub initial : Option ℕ
  pub initial_ttl : Option Seconds
  pub touch : Option Seconds
  pub compare_cas : Option ℕ
  pub set_cas : Option ℕ
  pub metadata_only : Bool
  pub return_ttl : Bool
  pub return_cas : Bool
  pub return_key : Bool
  pub opaque : Bytes

-- `Debug` keeps its entries in order; a later entry of a name overrides an earlier one.
pub record RawResponse : Type 0 where
  pub code : ResponseCode
  pub value : Bytes
  pub metadata : Metadata
  pub key : Option Bytes
  pub opaque : Bytes
  pub won : Bool
  pub busy : Bool
  pub stale : Bool
  pub flags : List Bytes
  pub debug : List (Bytes × Bytes)
  pub parse_err : Option Err

abbrev pub empty_response : ResponseCode → RawResponse
empty_response c = record {
  code = c;
  value = [];
  metadata = no_metadata;
  key = none;
  opaque = [];
  won = false;
  busy = false;
  stale = false;
  flags = [];
  debug = [];
  parse_err = none;
}
