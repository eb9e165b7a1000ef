-- ===== src/Constants.antt =====
-- common/constants/order.constants.ts, common/constants/digital.constants.ts and
-- common/money/currency.ts.
use kori_backend.Prelude.{is_some, not, false, ◌&&◌, true, ◌+◌, ◌*◌, Bool, ℕ, String}
use kori_backend.Database.{cancelled, pending_payment, OrderStatus, Order}

-- 500 MB.
abbrev pub max_digital_asset_bytes : ℕ
max_digital_asset_bytes = 500 * 1024 * 1024

abbrev pub download_grant_ttl_hours : ℕ
download_grant_ttl_hours = 72

abbrev pub download_grant_max_uses : ℕ
download_grant_max_uses = 5

-- `ESTADOS_SIN_COBRO`.
abbrev pub estado_sin_cobro : OrderStatus → Bool
estado_sin_cobro pending_payment = true
estado_sin_cobro cancelled = true
estado_sin_cobro _ = false

-- `NUNCA_COBRADO`.
abbrev pub nunca_cobrado : Order → Bool
nunca_cobrado o =
    estado_sin_cobro o.status && not (is_some o.payment_intent_id) && not (is_some o.paid_at)

-- `DIAS_RETENCION_SIN_COBRO`.
abbrev pub unpaid_retention_days : ℕ
unpaid_retention_days = 30

-- `DIAS_RETENCION_TRABAJOS_HECHOS`.
abbrev pub done_retention_days : ℕ
done_retention_days = 90

-- `MINUTOS_VIDA_SESION`.
abbrev pub session_minutes : ℕ
session_minutes = 30

-- `MINUTOS_GRACIA_CONCILIACION`.
abbrev pub grace_minutes : ℕ
grace_minutes = session_minutes + 5

abbrev pub day_ms : ℕ
day_ms = 24 * 60 * 60 * 1000

abbrev pub store_currency : String
store_currency = "USD"
