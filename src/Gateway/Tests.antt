-- ===== src/Gateway/Tests.antt =====
-- A whole accelerometer message is refused.
use sharak.Prelude.{◌≡◌, refl, pos, some}
use sharak.Protocol.Payload.Pack.{accel_message}
use sharak.Gateway.{accel, bad_length, Telemetry, decode}

abbrev zeroed : Telemetry
zeroed = record {
  kind = accel;
  seq = 0;
  x_mg = pos 0;
  y_mg = pos 0;
  z_mg = pos 0;
  temp_centi_c = pos 0;
  current_ma = pos 0;
}

refused : decode (some (accel_message 1 (pos 5) (pos 6) (pos 7))) 16 zeroed ≡ (bad_length, zeroed)
unfolding decode
refused = refl
