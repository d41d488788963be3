-- ===== src/InsertQueue/Kinds.antt =====
-- The numbers that iteminsertqueue.rs stores for the statuses name them.
use daqingest.Base.{ℕ, ◌≡◌, ◌↔◌, refl, ap, ◌∙◌, some, arith}
use daqingest.InsertQueue.{
  ConnectionStatus, ChannelStatus, closed, connection_to_kind, connection_from_kind,
  channel_to_kind, channel_from_kind, connect_error, assigned_to_address, shutdown_command,
}

connection_from_kind-to_kind :
    (s : ConnectionStatus) → connection_from_kind (connection_to_kind s) ≡ some s
unfolding connection_from_kind connection_to_kind
connection_from_kind-to_kind connect_error = refl
connection_from_kind-to_kind _ = refl

channel_from_kind-to_kind : (s : ChannelStatus) → channel_from_kind (channel_to_kind s) ≡ some s
unfolding channel_from_kind channel_to_kind
channel_from_kind-to_kind assigned_to_address = refl
channel_from_kind-to_kind (closed shutdown_command) = refl
channel_from_kind-to_kind (closed _) = refl
channel_from_kind-to_kind _ = refl

-- A stored number is read as a connection status exactly when it is the number that the status
-- is stored as.
pub connection_kind-names :
    (k : ℕ) (s : ConnectionStatus) → (connection_from_kind k ≡ some s) ↔ (k ≡ connection_to_kind s)
unfolding connection_from_kind connection_to_kind
connection_kind-names k s =
    (λ e. ground (arith, e), λ e. ap connection_from_kind e ∙ connection_from_kind-to_kind s)

-- A stored number is read as a channel status exactly when it is the number that the status is
-- stored as.
pub channel_kind-names :
    (k : ℕ) (s : ChannelStatus) → (channel_from_kind k ≡ some s) ↔ (k ≡ channel_to_kind s)
unfolding channel_from_kind channel_to_kind
channel_kind-names k s =
    (λ e. ground (arith, e), λ e. ap channel_from_kind e ∙ channel_from_kind-to_kind s)
