-- ===== src/InsertQueue/Examples.antt =====
-- Kinds of iteminsertqueue.rs.
use daqingest.Base.{◌≡◌, none, refl}
use daqingest.InsertQueue.{channel_from_kind}

unknown_kind_test : channel_from_kind 11 ≡ none
unfolding channel_from_kind
unknown_kind_test = refl
