-- ===== src/InsertQueue/Items.antt =====
-- The items to insert of iteminsertqueue.rs.
use daqingest.Base.{ℕ, Bool, Option, List, ℤ}
use daqingest.Socket.{SocketAddrV4}
use daqingest.CaProto.Error.{Shape}
use daqingest.InsertQueue.{ConnectionStatus, ChannelStatus, DataValue}

-- A `SeriesId` is its number, a time is in nanoseconds, a `ScalarType` of netpod is a number.
pub record ConnectionStatusItem : Type 0 where
  pub ts : ℕ
  pub addr : SocketAddrV4
  pub status : ConnectionStatus

pub record ChannelStatusItem : Type 0 where
  pub ts : ℕ
  pub series : ℕ
  pub status : ChannelStatus

pub record InsertItem : Type 0 where
  pub series : ℕ
  pub ts_msp : ℕ
  pub ts_lsp : ℕ
  pub msp_bump : Bool
  pub ts_msp_grid : Option ℕ
  pub pulse : ℕ
  pub scalar_type : ℕ
  pub shape : Shape
  pub val : DataValue

pub record MuteItem : Type 0 where
  pub series : ℕ
  pub ts : ℕ
  pub ema : ℕ
  pub emd : ℕ

pub record IvlItem : Type 0 where
  pub series : ℕ
  pub ts : ℕ
  pub ema : ℕ
  pub emd : ℕ

pub record ChannelInfoItem : Type 0 where
  pub ts_msp : ℕ
  pub series : ℕ
  pub ivl : ℕ
  pub interest : ℕ
  pub evsize : ℕ

pub record TimeBinPatchSimpleF32 : Type 0 where
  pub series : ℕ
  pub bin_len_sec : ℕ
  pub bin_count : ℕ
  pub off_msp : ℕ
  pub off_lsp : ℕ
  pub counts : List ℤ
  pub mins : List ℕ
  pub maxs : List ℕ
  pub avgs : List ℕ

pub data QueryItem : Type 0 where
  connection_status : ConnectionStatusItem → QueryItem
  channel_status : ChannelStatusItem → QueryItem
  insert : InsertItem → QueryItem
  mute : MuteItem → QueryItem
  ivl : IvlItem → QueryItem
  channel_info : ChannelInfoItem → QueryItem
  time_bin_patch_simple_f32 : TimeBinPatchSimpleF32 → QueryItem
