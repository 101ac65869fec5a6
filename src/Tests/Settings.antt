-- ===== src/Tests/Settings.antt =====
-- Settings from concrete environments, and numbers as text.
use o2_ims_worker.Prelude.{
  String, ◌==◌, ◌≡◌, refl, sym, none, some, [], ◌∷◌, true, false, arith, if◌then◌else◌,
}
use o2_ims_worker.Prelude.Int.{pos, negsuc}
use o2_ims_worker.Strconv.{parse_bool, atoi, itoa, show, show_from}
use o2_ims_worker.Strconv.Decimal.{atoi-itoa}
use o2_ims_worker.Config.{gather, gather_tftp, text_setting, int_setting}
use o2_ims_worker.Config.Defaults.{HasLetter, gather-HasLetter}
use o2_ims_worker.Config.Laws.{gather-bind_port}
use o2_ims_worker.Tftp.{listen_addr}
use o2_ims_worker.Worker.{tftp, http, started}

-- Both ports are set, the TFTP one to a free port.
abbrev getenv : String → String
getenv key =
    if key == "TFTP_BIND_PORT" then "6969" else if key == "DHCP_BIND_PORT" then "67" else ""

decimal : itoa (pos 6969) ≡ "6969"
unfolding itoa show show_from
decimal = refl

decimal_dhcp : itoa (pos 67) ≡ "67"
unfolding itoa show show_from
decimal_dhcp = refl

negative_test : atoi "-8" ≡ some (negsuc 7)
unfolding atoi
negative_test = refl

too_large_test : atoi "9223372036854775808" ≡ none
unfolding atoi
too_large_test = refl

bool_test : parse_bool "yes" ≡ none
unfolding parse_bool
bool_test = refl

atoi-itoa_example : atoi (itoa (negsuc 41)) ≡ some (negsuc 41)
atoi-itoa_example = atoi-itoa (negsuc 41) (omega arith)

gather-bind_port_example :
    ((gather getenv).tftp.bind_port ≡ pos 6969) × ((gather getenv).dhcp.bind_port ≡ pos 67)
gather-bind_port_example =
    gather-bind_port getenv (pos 6969) (pos 67) (omega arith) (omega arith) (sym decimal)
      (sym decimal_dhcp)

six_x_nine : HasLetter "6x9"
six_x_nine = record {
  front = "6";
  letter = "x";
  back = "9";
  in_text = refl;
  no_digit = refl;
  no_minus = omega arith;
  no_plus = omega arith;
}

gather-HasLetter_example :
    ((gather (λ key. "6x9")).tftp.bind_port ≡ pos 69)
    × ((gather (λ key. "6x9")).tftp.block_size ≡ pos 512)
    × ((gather (λ key. "6x9")).dhcp.bind_port ≡ pos 67)
    × ((gather (λ key. "6x9")).dhcp.tftp_port ≡ pos 69)
gather-HasLetter_example =
    gather-HasLetter (λ key. "6x9") six_x_nine six_x_nine six_x_nine six_x_nine

listen_test : listen_addr (gather getenv).tftp ≡ "0.0.0.0:6969"
unfolding listen_addr gather gather_tftp text_setting int_setting itoa atoi show show_from
listen_test = refl

started_test :
    started (record { no_tftp = false; no_dhcp = true; no_http = false }) ≡ tftp ∷ http ∷ []
unfolding started
started_test = refl
