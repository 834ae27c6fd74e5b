-- ===== src/Marker.antt =====
-- The codes of packet_parser/type.hpp, enum j2kmarker, that the scans tell apart.
use rtp_decoder_test.Base.{ℕ}

abbrev pub soc : ℕ
soc = 0xff4f

abbrev pub sod : ℕ
sod = 0xff93

abbrev pub eoc : ℕ
eoc = 0xffd9

abbrev pub siz : ℕ
siz = 0xff51

abbrev pub cap : ℕ
cap = 0xff50

abbrev pub cod : ℕ
cod = 0xff52

abbrev pub coc : ℕ
coc = 0xff53

abbrev pub qcd : ℕ
qcd = 0xff5c

abbrev pub qcc : ℕ
qcc = 0xff5d

abbrev pub dfs : ℕ
dfs = 0xff72

abbrev pub atk : ℕ
atk = 0xff79
