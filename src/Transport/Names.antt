-- ===== src/Transport/Names.antt =====
-- `transport_error_name`.
use Prim.Native.String.{String}
use industrial_memory_protoc.Transport.{TransportError}

unfoldable pub transport_error_name : TransportError → String
transport_error_name TransportError.none = "none"
transport_error_name TransportError.not_connected = "not_connected"
transport_error_name TransportError.timeout = "timeout"
transport_error_name TransportError.disconnected = "disconnected"
