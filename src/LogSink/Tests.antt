-- ===== src/LogSink/Tests.antt =====
-- Names and retention on a small directory.
use clash_nyanpasu_service.Shared.{ℕ, ◌^◌, ◌≡◌, ◌<◌, some, List, [], ◌∷◌, arith}
use clash_nyanpasu_service.LogSink.{file_name, file_seq}
use clash_nyanpasu_service.LogSink.Names.{file_seq-file_name}

abbrev files : List ℕ
files = 4 ∷ 9 ∷ 2 ∷ 7 ∷ []

within : 1234567 < 2 ^ 64
within = omega arith

file_seq-file_name_example : file_seq (file_name 1234567) ≡ some 1234567
file_seq-file_name_example = file_seq-file_name 1234567 within
