-- ===== src/Tests/Wire.antt =====
-- Runs of the wire format: the codecs of Data, the padding, and the texts.
use ssh_rs.Base.{
  ℕ, ◌+◌, ◌*◌, ◌%◌, ◌^◌, ◌≤◌, ◌<◌, ◌≡◌, refl, List, [], ◌∷◌, ◌++◌, arith, length, IsByte, u32, inl,
  inr, false, true,
}
use ssh_rs.Error.{ok}
use ssh_rs.Constant.{ascii}
use ssh_rs.Data.{Bytes, put_u8s, get_u8s, put_mpint, mpint_payload}
use ssh_rs.Data.RoundTrip.{get_u8s-put_u8s}
use ssh_rs.Data.Decode.{get_u8s-eq-ok}
use ssh_rs.Data.Mpint.{
  value, IsNonNegative, IsShortest, get_u8s-put_mpint, mpint_payload-IsShortest, mpint_payload_zero,
}
use ssh_rs.Text.{split, join}
use ssh_rs.Text.Split.{split-join}
use ssh_rs.Frame.{frame, unframe, pad_len}
use ssh_rs.Frame.Padding.{counted, pad_len_bounds, unframe-frame}

get_u8s-put_u8s_example : get_u8s (put_u8s [] (ascii "ssh") ++ (7 ∷ [])) ≡ ok (ascii "ssh", 7 ∷ [])
get_u8s-put_u8s_example = get_u8s-put_u8s (ascii "ssh") (7 ∷ []) (omega arith)

two_read : get_u8s (0 ∷ 0 ∷ 0 ∷ 2 ∷ 8 ∷ 9 ∷ 5 ∷ []) ≡ ok (8 ∷ 9 ∷ [], 5 ∷ [])
unfolding get_u8s ssh_rs.Data.get_u32 ssh_rs.Base.u32_of
two_read = refl

get_u8s-eq-ok_example :
    ((0 ∷ 0 ∷ 0 ∷ 2 ∷ 8 ∷ 9 ∷ 5 ∷ []) ≡ put_u8s [] (8 ∷ 9 ∷ []) ++ (5 ∷ [])) × (2 < 2 ^ 32)
get_u8s-eq-ok_example =
    get_u8s-eq-ok (0 ∷ 0 ∷ 0 ∷ 2 ∷ 8 ∷ 9 ∷ 5 ∷ []) (8 ∷ 9 ∷ []) (5 ∷ []) (omega arith) two_read

-- 0x80 is written with a zero byte in front.
get_u8s-put_mpint_example :
    (w : Bytes) × (d : Bytes) × (put_mpint [] (0x80 ∷ []) ≡ ok d)
    × (get_u8s (d ++ (1 ∷ [])) ≡ ok (w, 1 ∷ []))
    × (value w ≡ value (0x80 ∷ []))
    × IsNonNegative w
get_u8s-put_mpint_example = get_u8s-put_mpint 0x80 [] (1 ∷ []) (omega arith) (omega arith)

mpint_payload_top : mpint_payload (0x80 ∷ []) ≡ ok (0 ∷ 0x80 ∷ [])
unfolding mpint_payload
mpint_payload_top = refl

mpint_payload-IsShortest_example : IsShortest (0 ∷ 0x80 ∷ [])
mpint_payload-IsShortest_example =
    mpint_payload-IsShortest 0x80 [] (0 ∷ 0x80 ∷ []) (omega arith) (omega arith) mpint_payload_top

mpint_payload_small : mpint_payload (0 ∷ 5 ∷ []) ≡ ok (0 ∷ 5 ∷ [])
unfolding mpint_payload
mpint_payload_small = refl

mpint_payload_zero_example : ¬ IsShortest (0 ∷ 5 ∷ [])
mpint_payload_zero_example = mpint_payload_zero 5 [] (0 ∷ 5 ∷ []) (omega arith) mpint_payload_small

split-join_example :
    split b',' (join b',' (ascii "a" ∷ ascii "bc" ∷ [])) ≡ ascii "a" ∷ ascii "bc" ∷ []
split-join_example = split-join b',' (ascii "a") (ascii "bc" ∷ []) (omega arith)

pad_len_bounds_example :
    (8 ≤ pad_len 8 false 9)
    × (pad_len 8 false 9 < 2 * 8)
    × ((counted false 9 + pad_len 8 false 9) % 8 ≡ 0)
pad_len_bounds_example = pad_len_bounds 8 false 9 (inl refl) (omega arith)

unframe-frame_example : unframe (frame 16 true (ascii "ping")) ≡ ok (ascii "ping")
unframe-frame_example = unframe-frame 16 true (ascii "ping") (inr refl) (omega arith)
