-- ===== src/CaProto/Message.antt =====
-- The messages of proto.rs. A `String` is its bytes.
use daqingest.Base.{Bool, ℕ, Option, List, ℤ}

abbrev pub ca_proto_version : ℕ
ca_proto_version = 13

abbrev pub epics_epoch_offset : ℕ
epics_epoch_offset = 631152000

pub record Search : Type 0 where
  pub id : ℕ
  pub channel : List ℕ

pub record SearchRes : Type 0 where
  pub addr : ℕ
  pub tcp_port : ℕ
  pub id : ℕ
  pub proto_version : ℕ

pub record ErrorCmd : Type 0 where
  pub cid : ℕ
  pub eid : ℕ
  pub msg : List ℕ

pub record ClientNameRes : Type 0 where
  pub name : List ℕ

pub record CreateChan : Type 0 where
  pub cid : ℕ
  pub channel : List ℕ

pub record CreateChanRes : Type 0 where
  pub data_type : ℕ
  pub data_count : ℕ
  pub cid : ℕ
  pub sid : ℕ

pub record CreateChanFail : Type 0 where
  pub cid : ℕ

pub record AccessRightsRes : Type 0 where
  pub cid : ℕ
  pub rights : ℕ

pub record EventAdd : Type 0 where
  pub data_type : ℕ
  pub data_count : ℕ
  pub sid : ℕ
  pub subid : ℕ

-- A float is its bit pattern.
pub data CaDataScalarValue : Type 0 where
  i8 i16 i32 : ℤ → CaDataScalarValue
  f32 f64 : ℕ → CaDataScalarValue
  enum : ℤ → CaDataScalarValue
  string : List ℕ → CaDataScalarValue
  bool : Bool → CaDataScalarValue

pub data CaDataArrayValue : Type 0 where
  i8 i16 i32 : List ℤ → CaDataArrayValue
  f32 f64 : List ℕ → CaDataArrayValue
  bool : List Bool → CaDataArrayValue

pub data CaDataValue : Type 0 where
  scalar : CaDataScalarValue → CaDataValue
  array : CaDataArrayValue → CaDataValue

-- `NonZeroU64` and `NonZeroU16`: the option is `none` at 0
pub record CaEventValue : Type 0 where
  pub ts : Option ℕ
  pub status : Option ℕ
  pub severity : Option ℕ
  pub value : CaDataValue

pub record EventAddRes : Type 0 where
  pub data_type : ℕ
  pub data_count : ℕ
  pub status : ℕ
  pub subid : ℕ
  pub value : CaEventValue

pub record ReadNotify : Type 0 where
  pub data_type : ℕ
  pub data_count : ℕ
  pub sid : ℕ
  pub ioid : ℕ

pub record ReadNotifyRes : Type 0 where
  pub data_type : ℕ
  pub data_count : ℕ
  pub sid : ℕ
  pub ioid : ℕ

pub data CaMsgTy : Type 0 where
  version : CaMsgTy
  version_res : ℕ → CaMsgTy
  error : ErrorCmd → CaMsgTy
  client_name : CaMsgTy
  client_name_res : ClientNameRes → CaMsgTy
  host_name : List ℕ → CaMsgTy
  search_request : Search → CaMsgTy
  search_res : SearchRes → CaMsgTy
  create_chan : CreateChan → CaMsgTy
  create_chan_res : CreateChanRes → CaMsgTy
  create_chan_fail : CreateChanFail → CaMsgTy
  access_rights_res : AccessRightsRes → CaMsgTy
  event_add : EventAdd → CaMsgTy
  event_add_res : EventAddRes → CaMsgTy
  read_notify : ReadNotify → CaMsgTy
  read_notify_res : ReadNotifyRes → CaMsgTy
  echo : CaMsgTy

pub record CaMsg : Type 0 where
  pub ty : CaMsgTy
