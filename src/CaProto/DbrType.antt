-- ===== src/CaProto/DbrType.antt =====
-- `CaDbrType` of proto.rs.
use daqingest.Base.{ℕ, ◌-◌, ltb, leb, ◌==◌, if◌then◌else◌, Outcome, ok, err}
use daqingest.Base.Fallible.{◌>>=◌}
use daqingest.CaProto.Error.{Error, bad_ca_dbr_type_id, bad_ca_scalar_type_id}

pub data CaScalarType : Type 0 where
  i8 i16 i32 f32 f64 enum string : CaScalarType

pub data CaDbrMetaType : Type 0 where
  plain status time : CaDbrMetaType

pub record CaDbrType : Type 0 where
  pub meta : CaDbrMetaType
  pub scalar_type : CaScalarType

scalar_type_of : ℕ → Outcome Error CaScalarType
scalar_type_of k =
    if k == 4
    then ok i8
    else if k == 1
    then ok i16
    else if k == 5
    then ok i32
    else if k == 2
    then ok f32
    else if k == 6
    then ok f64
    else if k == 3
    then ok enum
    else if k == 0
    then ok string
    else err (bad_ca_scalar_type_id k)

split_meta : ℕ → CaDbrMetaType × ℕ
split_meta k = if leb 14 k then (time, k - 14) else if leb 7 k then (status, k - 7) else (plain, k)

unfoldable pub from_ca_u16 : ℕ → Outcome Error CaDbrType
unfolding scalar_type_of split_meta
from_ca_u16 k =
    if ltb 20 k
    then err (bad_ca_dbr_type_id k)
    else let (meta, k') = split_meta k in
      do scalar_type ← scalar_type_of k'; ok (record { meta = meta; scalar_type = scalar_type })
