-- ===== src/Tests/Listening.antt =====
-- The theorems on the listener, at a request of one source.
use icinga_notifications.Prelude.{◌≡◌, ◌≢◌, ◌⊎◌, refl, true, false, none, some, []}
use icinga_notifications.Prelude.Int
use icinga_notifications.Prelude.Bytes.{codes, bytes_eq}
use icinga_notifications.Event.Incoming.{state}
use icinga_notifications.Object.Cache.{get_from_cache}
use icinga_notifications.Runtime.Maps.{lookup}
use icinga_notifications.Runtime.Tables.{load}
use icinga_notifications.Runtime.Elements.{Source, icinga2}
use icinga_notifications.Runtime.State.{Runtime, pointer, read}
use icinga_notifications.Runtime.Credentials
use icinga_notifications.Runtime.Credentials.{parse_int, get_source_from_credentials}
use icinga_notifications.Listener.Handler.{Request, Listener, status_ok, handle}
use icinga_notifications.Listener.Guarded.{Accepted, handle_cases, handle_other}
use icinga_notifications.Tests.Samples.{event_of}
use icinga_notifications.Tests.Configuration.{runtime, one}
use icinga_notifications.Tests.Registered.{sample, sample-WellFormed, outside_failing_at}

abbrev source : Source
source = record {
  id = 1;
  kind = icinga2;
  name = codes "icinga";
  listener_password_hash = some (codes "secret");
  cancel = false;
}

abbrev with_source : Runtime
with_source = record runtime { sources = one 1 source }

parse_int_signed : parse_int (codes "-42") ≡ some (Int.negsuc 41)
unfolding parse_int Credentials.read_number Credentials.read_digits
parse_int_signed = refl

known_source :
    get_source_from_credentials bytes_eq with_source (codes "source-1") (codes "secret")
    ≡ some source
unfolding get_source_from_credentials Credentials.cut_prefix parse_int Credentials.read_number
    Credentials.read_digits Credentials.source_of Credentials.check_password pointer read lookup
    load bytes_eq
known_source = refl

abbrev listener : Listener
listener = record {
  outside = outside_failing_at 50;
  runtime = with_source;
  compare = bytes_eq;
  decode = λ body. some (event_of state);
  now = Int.pos 5000;
}

abbrev request : Request
request = record { is_post = true; auth = some (codes "source-1", codes "secret"); body = [] }

handle_cases_example :
    (((handle listener request sample).0 ≢ status_ok)
      × ((handle listener request sample).1 ≡ sample))
    ⊎ ((request.is_post ≡ true) × Accepted listener request sample (handle listener request sample))
handle_cases_example = handle_cases listener request sample

handle_other_example :
    (lookup bytes_eq (handle listener request sample).1.current (codes "other") ≡ none)
    × (get_from_cache (handle listener request sample).1.objects (codes "other") ≡ none)
unfolding lookup get_from_cache bytes_eq
handle_other_example =
    handle_other listener request sample (codes "other") sample-WellFormed
      (λ user pass source tags h g. refl)
