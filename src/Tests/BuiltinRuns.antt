-- ===== src/Tests/BuiltinRuns.antt =====
-- internal/tool/builtin at concrete inputs: a duration, and a web of one public host.
use ssh_bot.Base.{ℕ, ◌≡◌, refl, arith, true, false, none, some, [], ◌∷◌, utf8}
use ssh_bot.Builtin.Datetime.Sums.{
  Component, day, hour, text, time_part, sum, decimal, parse_iso_duration-text,
}
use ssh_bot.Builtin.Datetime.{nanoseconds, is_digit, parse_iso_duration}
use ssh_bot.Builtin.Fetch.Guarded.{Guarded, call-Guarded}
use ssh_bot.Builtin.Fetch.{Web, addresses, response, article, call}

abbrev one_day : Component
one_day = record { first = b'1'; others = []; unit = day }

abbrev twelve_hours : Component
twelve_hours = record { first = b'1'; others = b'2' ∷ []; unit = hour }

digit_one : is_digit b'1' ≡ true
unfolding is_digit
digit_one = refl

digit_two : is_digit b'2' ≡ true
unfolding is_digit
digit_two = refl

parse_iso_duration-text_example :
    parse_iso_duration (b'P' ∷ text (one_day ∷ []) (time_part (twelve_hours ∷ [])))
    ≡ nanoseconds 129600000000000
unfolding sum decimal
parse_iso_duration-text_example =
    parse_iso_duration-text (one_day ∷ []) (twelve_hours ∷ []) (((digit_one, tt), refl), tt)
      (((digit_one, (digit_two, tt)), refl), tt) (omega arith)

abbrev public_web : Web
public_web = record {
  Addr = ℕ;
  decode = λ args. some (record { url = args; max_chars = 0 });
  parse_url = λ url. some (record {
    scheme = utf8 "https";
    hostname = utf8 "site";
    host = utf8 "site";
    escaped_path = [];
  });
  parse_addr = λ host. none;
  lookup_ip = λ host. addresses (7 ∷ []);
  is_loopback = λ a. false;
  is_private = λ a. false;
  is_link_local_unicast = λ a. false;
  is_link_local_multicast = λ a. false;
  bad_request = λ url. none;
  get = λ url. response 200 (utf8 "Disallow: /private") none;
  extract = λ body t. article [] body;
  to_lower = λ s. s;
}

call-Guarded_example :
    Guarded public_web (utf8 "https://site") (call public_web 20000 (utf8 "https://site")).1
call-Guarded_example = call-Guarded public_web 20000 (utf8 "https://site")
