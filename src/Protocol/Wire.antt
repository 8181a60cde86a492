-- ===== src/Protocol/Wire.antt =====
-- The sizes and constants of protocol/include/sharak/protocol.h.
use sharak.Prelude.{ℕ, ◌+◌, ◌*◌, ℤ, pos, negsuc}

abbrev pub envelope_len : ℕ
envelope_len = 4

abbrev pub payload_max : ℕ
payload_max = 16

abbrev pub payload_min : ℕ
payload_min = 6

abbrev pub payload_len : ℕ
payload_len = payload_max

abbrev pub crc_len : ℕ
crc_len = 2

abbrev pub frame_inner : ℕ
frame_inner = payload_max + crc_len

abbrev pub frame_max : ℕ
frame_max = 2 * frame_inner + 2

abbrev pub flag : ℕ
flag = 0x7e

abbrev pub esc_byte : ℕ
esc_byte = 0x7d

abbrev pub esc_xor : ℕ
esc_xor = 0x20

abbrev pub ver_byte : ℕ
ver_byte = 0x01

abbrev pub type_accel : ℕ
type_accel = 0x01

abbrev pub type_temp : ℕ
type_temp = 0x02

abbrev pub type_current : ℕ
type_current = 0x03

-- The results of `sk_decoder_feed` that are not a payload length.
abbrev pub dec_more : ℤ
dec_more = pos 0

abbrev pub dec_err_len : ℤ
dec_err_len = negsuc 0

abbrev pub dec_err_crc : ℤ
dec_err_crc = negsuc 1

abbrev pub dec_err_oflow : ℤ
dec_err_oflow = negsuc 2
