-- ===== src/Converter/Tests.antt =====
-- Runs of internal/converter/converter.go: a water depth group (PDU2) and an ISO request (PDU1).
use n2k.Prelude.{◌≡◌, refl, arith}
use n2k.Converter.{can_id_from_data, decode_can_id}
use n2k.Converter.CanId.{FitsId, decode_can_id-can_id_from_data}

can_id_request : can_id_from_data 59904 35 6 17 ≡ 0x98EA_1123
unfolding can_id_from_data
can_id_request = refl

decode_depth :
    decode_can_id 7 0x8DF5_0B23
    ≡ record { time_stamp = 7; source_id = 35; pgn = 128267; priority = 3; target_id = 255 }
unfolding decode_can_id
decode_depth = refl

request_fits : FitsId 59904 35 6 17
request_fits = omega arith

decode_can_id-can_id_from_data_example :
    decode_can_id 7 (can_id_from_data 59904 35 6 17)
    ≡ record { time_stamp = 7; source_id = 35; pgn = 59904; priority = 6; target_id = 17 }
decode_can_id-can_id_from_data_example = decode_can_id-can_id_from_data 7 59904 35 6 17 request_fits
