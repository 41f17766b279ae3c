-- ===== src/Photon/Names.antt =====
-- The tables of photon_hooks.cpp that name the values of the game's enumerations for the log.
use Prim.Native.String.{String}
use old_pixel_gun_3d_online.Base.{ℤ, int_eq, if◌then◌else◌, List, [], ◌∷◌, ℕ}

-- A `switch` over constants with a `default`.
abbrev switch : List (ℕ × String) → String → ℤ → String
switch [] other value = other
switch ((k, name) ∷ cases) other value = if int_eq value k then name else switch cases other value

unfoldable pub hosting_name : ℤ → String
hosting_name =
    switch
      ((0, "NotSet")
        ∷ (1, "PhotonCloud")
        ∷ (2, "SelfHosted")
        ∷ (3, "OfflineMode")
        ∷ (4, "BestRegion")
        ∷ [])
      "unknown"

unfoldable pub protocol_name : ℤ → String
protocol_name =
    switch ((0, "Udp") ∷ (1, "Tcp") ∷ (4, "WebSocket") ∷ (5, "WebSocketSecure") ∷ []) "unknown"

unfoldable pub status_name : ℤ → String
status_name =
    switch
      ((1022, "SecurityExceptionOnConnect")
        ∷ (1023, "ExceptionOnConnect")
        ∷ (1024, "Connect")
        ∷ (1025, "Disconnect")
        ∷ (1026, "Exception")
        ∷ (1027, "QueueOutgoingReliableWarning")
        ∷ (1029, "QueueOutgoingUnreliableWarning")
        ∷ (1030, "SendError")
        ∷ (1031, "QueueOutgoingAcksWarning")
        ∷ (1033, "QueueSentWarning")
        ∷ (1039, "InternalReceiveException")
        ∷ (1040, "TimeoutDisconnect")
        ∷ (1041, "DisconnectByServer")
        ∷ (1042, "DisconnectByServerUserLimit")
        ∷ (1043, "DisconnectByServerLogic")
        ∷ (1048, "EncryptionEstablished")
        ∷ (1049, "EncryptionFailedToEstablish")
        ∷ [])
      "unknown"

unfoldable pub disconnect_name : ℤ → String
disconnect_name =
    switch
      ((1022, "SecurityExceptionOnConnect")
        ∷ (1023, "ExceptionOnConnect")
        ∷ (1026, "Exception")
        ∷ (1039, "InternalReceiveException")
        ∷ (1040, "DisconnectByClientTimeout")
        ∷ (1041, "DisconnectByServerTimeout")
        ∷ (1042, "DisconnectByServerUserLimit")
        ∷ (1043, "DisconnectByServerLogic")
        ∷ (32753, "AuthenticationTicketExpired")
        ∷ (32756, "InvalidRegion")
        ∷ (32757, "MaxCcuReached")
        ∷ (32767, "InvalidAuthentication")
        ∷ [])
      "unknown"

unfoldable pub debug_level_name : ℤ → String
debug_level_name =
    switch ((0, "OFF") ∷ (1, "ERROR") ∷ (2, "WARNING") ∷ (3, "INFO") ∷ (5, "ALL") ∷ []) "unknown"
