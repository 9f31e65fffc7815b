-- ===== src/Client/Names.antt =====
-- `client_error_name`.
use Prim.Native.String.{String}
use industrial_memory_protoc.Client.Types.{ClientError}

unfoldable pub client_error_name : ClientError → String
client_error_name ClientError.none = "none"
client_error_name ClientError.invalid_argument = "invalid_argument"
client_error_name ClientError.connect_failed = "connect_failed"
client_error_name ClientError.timeout = "timeout"
client_error_name ClientError.disconnected = "disconnected"
client_error_name ClientError.encoding_failed = "encoding_failed"
client_error_name ClientError.malformed_response = "malformed_response"
client_error_name ClientError.correlation_mismatch = "correlation_mismatch"
client_error_name ClientError.unexpected_response = "unexpected_response"
client_error_name ClientError.remote_error = "remote_error"
