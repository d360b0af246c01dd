-- ===== src/Version/Skips.antt =====
-- The lines that a server may send before its version, in a chunk.
use mathlib.Core.Path.{◌∙◌}
use ssh_rs.Base.{
  ℕ, append-nil, append_assoc, ◌≡◌, refl, ap, List, [], ◌∷◌, ◌++◌, Bool, true, false, ◌⊎◌, inl, inr,
  ◌==◌, ltb, length, if◌then◌else◌, arith,
}
use ssh_rs.Data.{Bytes}
use ssh_rs.Timeout.{Timeout, renew}
use ssh_rs.Version.{ends_with_crlf, has_magic, line_ends, on_round, take_byte, take_bytes}

abbrev pub crlf : Bytes
crlf = 13 ∷ 10 ∷ []

-- A text without line feeds.
abbrev pub NoLf : Bytes → Type 0
NoLf [] = Unit {0}
NoLf (b ∷ s) = ((10 == b) ≡ false) × NoLf s

ends_with_crlf-append : (s : Bytes) → ends_with_crlf (s ++ crlf) ≡ true
unfolding ends_with_crlf
ends_with_crlf-append [] = refl
ends_with_crlf-append (a ∷ []) = refl
ends_with_crlf-append (a ∷ b ∷ []) = refl
ends_with_crlf-append (a ∷ b ∷ c ∷ s) = ends_with_crlf-append (b ∷ c ∷ s)

take_byte_inside :
    (t : Timeout) (got : Bytes) (b : ℕ)
    → (10 == b) ≡ false
    → take_byte t got b ≡ inl (renew t, got ++ (b ∷ []))
unfolding take_byte line_ends
take_byte_inside t got b h = rw h

take_bytes_inside :
    (t : Timeout) (got s tail : Bytes)
    → NoLf s
    → (t' : Timeout) × (take_bytes t got (s ++ tail) ≡ take_bytes t' (got ++ s) tail)
unfolding take_bytes
take_bytes_inside t got [] tail h = (t, rw (append-nil got))
take_bytes_inside t got (b ∷ s) tail (h, hs) =
    let (t', e) = take_bytes_inside (renew t) (got ++ (b ∷ [])) s tail hs in
    (
      t',
      ap
            (λ x.
              on_round x (λ next. take_bytes next.0 next.1 (s ++ tail))
                (λ out. inr (out, s ++ tail)))
            (take_byte_inside t got b h)
          ∙ e
          ∙ ap (λ g. take_bytes t' g tail) (append_assoc got (b ∷ []) s),
    )

line_is_long : (s : Bytes) → ltb 1 (length (s ++ crlf)) ≡ true
line_is_long [] = refl
line_is_long (a ∷ s) = ground (arith, line_is_long s)

-- The line feed after a carriage return ends the line.
take_byte_last :
    (t : Timeout) (s : Bytes)
    → take_byte t (s ++ (13 ∷ [])) 10
      ≡ (if has_magic (s ++ crlf) then inr (s ++ crlf) else inl (t, []))
unfolding take_byte line_ends
take_byte_last t s =
    rw (append_assoc s (13 ∷ []) (10 ∷ []), line_is_long s, ends_with_crlf-append s)

-- What comes of the rest of a chunk after a byte.
abbrev resume : Bytes → (Timeout × Bytes) ⊎ Bytes → (Timeout × Bytes) ⊎ (Bytes × Bytes)
resume tail x = on_round x (λ next. take_bytes next.0 next.1 tail) (λ out. inr (out, tail))

-- What comes of the end of a line, by whether it starts with "SSH-".
abbrev line_end : Timeout → Bytes → Bool → (Timeout × Bytes) ⊎ Bytes
line_end t s magic = if magic then inr (s ++ crlf) else inl (t, [])

-- A line read from its start.
take_bytes_line :
    (t : Timeout) (s tail : Bytes)
    → NoLf s
    → (t' : Timeout) × (take_bytes t [] (s ++ (13 ∷ 10 ∷ tail))
        ≡ resume tail (line_end t' s (has_magic (s ++ crlf))))
unfolding take_bytes
take_bytes_line t s tail h =
    let (t', e) = take_bytes_inside t [] s (13 ∷ 10 ∷ tail) h in
    (
      renew t',
      e
          ∙ ap (resume (10 ∷ tail)) (take_byte_inside t' s 13 refl)
          ∙ ap (resume tail) (take_byte_last (renew t') s),
    )

-- Lines before a text.
abbrev pub with_lines : List Bytes → Bytes → Bytes
with_lines [] tail = tail
with_lines (s ∷ ss) tail = s ++ (13 ∷ 10 ∷ with_lines ss tail)

-- Lines that do not start with "SSH-".
abbrev pub AllOther : List Bytes → Type 0
AllOther [] = Unit {0}
AllOther (s ∷ ss) = NoLf s × (has_magic (s ++ crlf) ≡ false) × AllOther ss

pub take_bytes_lines :
    (t : Timeout) (ss : List Bytes) (v tail : Bytes)
    → AllOther ss
    → NoLf v
    → has_magic (v ++ crlf) ≡ true
    → take_bytes t [] (with_lines ss (v ++ (13 ∷ 10 ∷ tail))) ≡ inr (v ++ crlf, tail)
take_bytes_lines t [] v tail others hv magic =
    let (t', e) = take_bytes_line t v tail hv in e ∙ ap (λ b. resume tail (line_end t' v b)) magic
take_bytes_lines t (s ∷ ss) v tail (hs, other, others) hv magic =
    let after = with_lines ss (v ++ (13 ∷ 10 ∷ tail)) in
    let (t', e) = take_bytes_line t s after hs in
    e
    ∙ ap (λ b. resume after (line_end t' s b)) other
    ∙ take_bytes_lines t' ss v tail others hv magic
