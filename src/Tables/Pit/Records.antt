-- ===== src/Tables/Pit/Records.antt =====
-- The records and the entries of pending Interests (mars/fw/table/pit-cs.go).
use mars_icnp.Prelude.{ℕ, ◌+◌, Bool, Option, none, some, List, []}
use mars_icnp.Prelude.Maps.{find, put, remove}
use mars_icnp.Tables.Tree.{Name}

-- Times are in nanoseconds.
pub record PitInRecord : Type 0 where
  pub face : ℕ
  pub latest_timestamp : ℕ
  pub latest_nonce : ℕ
  pub expiration_time : ℕ
  pub pit_token : List ℕ

pub record PitOutRecord : Type 0 where
  pub face : ℕ
  pub latest_timestamp : ℕ
  pub latest_nonce : ℕ
  pub expiration_time : ℕ

-- `path` is that of the node of the tree.
pub record PitEntry : Type 0 where
  pub encname : Name
  pub path : Name
  pub can_be_prefix : Bool
  pub must_be_fresh : Bool
  pub forwarding_hint : Option Name
  pub in_records : List (ℕ × PitInRecord)
  pub out_records : List (ℕ × PitOutRecord)
  pub expiration_time : ℕ
  pub satisfied : Bool
  pub token : ℕ

-- The fields of an Interest that the forwarder reads; `none` is an absent field.
pub record Interest : Type 0 where
  pub name : Name
  pub can_be_prefix : Bool
  pub must_be_fresh : Bool
  pub hint_names : List Name
  pub nonce : Option ℕ
  pub lifetime : Option ℕ
  pub hop_limit : Option ℕ

abbrev pub value_or : Option ℕ → ℕ → ℕ
value_or none d = d
value_or (some v) d = v

-- `NonceV.Unwrap()`; the callers have dropped an Interest without one.
abbrev pub nonce_of : Interest → ℕ
nonce_of i = value_or i.nonce 0

abbrev pub lifetime_of : Interest → ℕ
lifetime_of i = value_or i.lifetime 4000000000

-- The record of an Interest that comes again keeps its PIT token.
abbrev pub in_record_of : Option PitInRecord → Interest → ℕ → List ℕ → ℕ → PitInRecord
in_record_of none i face token now = record {
  face = face;
  latest_timestamp = now;
  latest_nonce = nonce_of i;
  expiration_time = now + lifetime_of i;
  pit_token = token;
}
in_record_of (some r) i face token now = record {
  face = r.face;
  latest_timestamp = now;
  latest_nonce = nonce_of i;
  expiration_time = now + lifetime_of i;
  pit_token = r.pit_token;
}

abbrev pub previous_nonce : Option PitInRecord → Option ℕ
previous_nonce none = none
previous_nonce (some r) = some r.latest_nonce

-- The entry, the record, and the nonce before when there was a record.
unfoldable pub insert_in_record :
    Interest → ℕ → List ℕ → ℕ → PitEntry → PitEntry × PitInRecord × Option ℕ
insert_in_record i face token now e =
    let old = find face e.in_records in
    let r = in_record_of old i face token now in
    (record e { in_records = put face r e.in_records }, r, previous_nonce old)

unfoldable pub insert_out_record : Interest → ℕ → ℕ → PitEntry → PitEntry
insert_out_record i face now e = record e {
  out_records =
      put face
        (record {
          face = face;
          latest_timestamp = now;
          latest_nonce = nonce_of i;
          expiration_time = now + lifetime_of i;
        })
        e.out_records;
}

unfoldable pub remove_in_record : ℕ → PitEntry → PitEntry
remove_in_record face e = record e { in_records = remove face e.in_records }

unfoldable pub clear_records : PitEntry → PitEntry
clear_records e = record e { in_records = []; out_records = [] }
