-- ===== src/Config/Defaults.antt =====
-- Integer settings whose text is no number.
use Prim.Native.String.{[], ◌∷◌}
use text.Mathlib.TextLemmas.{nil-append, cons-append}
use o2_ims_worker.Prelude.{
  ℕ, ◌+◌, ◌-◌, ◌*◌, Char, code, String, ◌<>◌, ◌≡◌, ◌≢◌, refl, sym, ap, ◌∙◌, eq_iff, false, none,
  arith, Bool-cases, inl, inr,
}
use o2_ims_worker.Prelude.Int.{ℤ, pos}
use o2_ims_worker.Strconv.{is_digit, digits_from, magnitude, atoi}
use o2_ims_worker.Config.{int_setting, gather_tftp, gather_dhcp, gather}

-- A text with a character that is neither a digit nor a sign.
pub record HasLetter (text : String) : Type 0 where
  pub front : String
  pub letter : Char
  pub back : String
  pub in_text : text ≡ front <> (letter ∷ back)
  pub no_digit : is_digit (code letter) ≡ false
  pub no_minus : code letter ≢ b'-'
  pub no_plus : code letter ≢ b'+'

digits_from-letter :
    (n : ℕ) (front : String) (c : Char) (back : String)
    → is_digit (code c) ≡ false
    → digits_from n (front <> (c ∷ back)) ≡ none
unfolding digits_from
digits_from-letter n [] c back h = rw (nil-append (c ∷ back)) (rw (h, digits_from) refl)
digits_from-letter n (d ∷ front) c back h = rw (cons-append d front (c ∷ back)) (
    rw (digits_from-letter (n * 10 + (code d - b'0')) front c back h)
      (elim (Bool-cases (is_digit (code d))) [ inl e ↦ rw e refl | inr e ↦ rw e refl ]))

magnitude-letter :
    (front : String) (c : Char) (back : String)
    → is_digit (code c) ≡ false
    → magnitude (front <> (c ∷ back)) ≡ none
unfolding magnitude
magnitude-letter [] c back h =
    ap magnitude (nil-append (c ∷ back))
    ∙ ap (digits_from 0) (sym (nil-append (c ∷ back)))
    ∙ digits_from-letter 0 [] c back h
magnitude-letter (d ∷ front) c back h =
    ap magnitude (cons-append d front (c ∷ back))
    ∙ ap (digits_from 0) (sym (cons-append d front (c ∷ back)))
    ∙ digits_from-letter 0 (d ∷ front) c back h

atoi-letter :
    (front : String) (c : Char) (back : String)
    → is_digit (code c) ≡ false
    → code c ≢ b'-'
    → code c ≢ b'+'
    → atoi (front <> (c ∷ back)) ≡ none
unfolding atoi
atoi-letter [] c back h minus plus =
    ap atoi (nil-append (c ∷ back))
    ∙ ground
        (arith, magnitude-letter [] c back h, ap magnitude (nil-append (c ∷ back)), minus, plus)
atoi-letter (d ∷ front) c back h minus plus =
    ap atoi (cons-append d front (c ∷ back))
    ∙ ground (
      arith,
      magnitude-letter front c back h,
      magnitude-letter (d ∷ front) c back h,
      ap magnitude (cons-append d front (c ∷ back)),
    )

atoi-HasLetter : (text : String) → HasLetter text → atoi text ≡ none
atoi-HasLetter text l =
    ap atoi l.in_text ∙ atoi-letter l.front l.letter l.back l.no_digit l.no_minus l.no_plus

module _ (getenv : String → String) where
  int_setting-HasLetter :
      (key : String) (old : ℤ) → HasLetter (getenv key) → int_setting getenv key old ≡ old
  unfolding int_setting
  int_setting-HasLetter key old l =
      ground (arith, atoi-HasLetter (getenv key) l, eq_iff (getenv key) "")

  -- Where the four variables of a number have texts with a character that is neither a digit nor a
  -- sign: the ports are 69 for TFTP and 67 for DHCP, the block is 512 bytes, and the TFTP port that
  -- DHCP is given is 69.
  pub gather-HasLetter :
      HasLetter (getenv "TFTP_BIND_PORT")
      → HasLetter (getenv "TFTP_BLOCKSIZE")
      → HasLetter (getenv "DHCP_BIND_PORT")
      → HasLetter (getenv "DHCP_TFTP_PORT")
      → ((gather getenv).tftp.bind_port ≡ pos 69)
        × ((gather getenv).tftp.block_size ≡ pos 512)
        × ((gather getenv).dhcp.bind_port ≡ pos 67)
        × ((gather getenv).dhcp.tftp_port ≡ pos 69)
  unfolding gather gather_tftp gather_dhcp
  gather-HasLetter port block dhcp_port tftp_port = (
    int_setting-HasLetter "TFTP_BIND_PORT" _ port,
    int_setting-HasLetter "TFTP_BLOCKSIZE" _ block,
    int_setting-HasLetter "DHCP_BIND_PORT" _ dhcp_port,
    int_setting-HasLetter "DHCP_TFTP_PORT" _ tftp_port,
  )
