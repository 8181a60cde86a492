-- ===== src/Gateway.antt =====
-- The C++ side of gateway/include/sharak/decode.hpp, with gateway/src/decode.cpp as it stands: a stub.
mod Tests
use sharak.Prelude.{ℕ, List, [], ℤ, Ptr, some}

pub data Kind : Type 0 where
  accel : Kind
  temp : Kind
  current : Kind

pub data DecodeStatus : Type 0 where
  ok : DecodeStatus
  bad_length : DecodeStatus
  bad_version : DecodeStatus
  unknown_type : DecodeStatus

pub record Telemetry : Type 0 where
  pub kind : Kind
  pub seq : ℕ
  pub x_mg : ℤ
  pub y_mg : ℤ
  pub z_mg : ℤ
  pub temp_centi_c : ℤ
  pub current_ma : ℤ

-- Nothing is read, and `out` stays as it is.
pub decode : Ptr (List ℕ) → ℕ → Telemetry → DecodeStatus × Telemetry
decode payload len out = (bad_length, out)
