-- ===== src/Tests.antt =====
-- Concrete runs of the definitions, and the theorems at concrete inputs.
mod WireRuns
mod RouterRuns
mod HttpRuns
mod WsRuns
mod SessionRuns
mod JsonRuns
mod ArenaRuns
mod SchemaRuns
mod ServerRuns
mod CryptoRuns
mod CookieRuns
mod JwtRuns
mod MiddlewareRuns
mod PipeRuns
mod StreamRuns
mod MultipartRuns
mod ControllerRuns
