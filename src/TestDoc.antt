-- ===== src/TestDoc.antt =====
-- A JSON of nested objects for the tests, with one text that it can parse.
use watched_back.Base.{
  ℤ, ◌≡◌, refl, subst, ap, String, Bool, true, false, ◌||◌, [], str_eq, eq_iff, eq_refl,
  if◌then◌else◌, arith, pos, negsuc,
}
use watched_back.World.{Outcome, returned, threw, std_exception}
use watched_back.Json.{Jsoncpp}
use watched_back.TestJson.{zero_double}
use watched_back.Config.{Build}
use watched_back.Config.Settled.{Sets, returned-injective}
use watched_back.Config.Total.{Objects}

mutual
  pub data Doc : Type 0 where
    absent : Doc
    words : String → Doc
    number : ℤ → Doc
    flag : Bool → Doc
    object : Members → Doc

  pub data Members : Type 0 where
    no_members : Members
    member : String → Doc → Members → Members

abbrev has_in : Members → String → Bool
has_in no_members k = false
has_in (member j v m) k = str_eq j k || has_in m k

abbrev read_in : Members → String → Doc
read_in no_members k = absent
read_in (member j v m) k = if str_eq j k then v else read_in m k

abbrev set_in : Members → String → Doc → Members
set_in no_members k x = member k x no_members
set_in (member j v m) k x =
    let rest = set_in m k x in if str_eq j k then member j x m else member j v rest

abbrev no_object : {A : Type 0} → Outcome A
no_object = threw (std_exception "requires objectValue")

abbrev is_member : Doc → String → Outcome Bool
is_member absent k = returned false
is_member (object m) k = returned (has_in m k)
is_member _ k = no_object

abbrev at : Doc → String → Outcome Doc
at absent k = returned absent
at (object m) k = returned (read_in m k)
at _ k = no_object

abbrev set : Doc → String → Doc → Outcome Doc
set absent k x = returned (object (member k x no_members))
set (object m) k x = returned (object (set_in m k x))
set _ k x = no_object

-- `asString` and `asInt` of a value that is one, or of null.
abbrev as_string : Doc → Outcome String
as_string absent = returned ""
as_string (words s) = returned s
as_string _ = threw (std_exception "Type is not convertible to string")

abbrev as_int : Doc → Outcome ℤ
as_int absent = returned (pos 0)
as_int (number n) = returned n
as_int _ = threw (std_exception "Value is not convertible to Int")

abbrev pub doc_json : Doc → Jsoncpp
doc_json saved = record {
  Value = Doc;
  null = absent;
  empty_object = object no_members;
  of_string = words;
  of_int = number;
  of_bool = flag;
  parse = λ s. if str_eq s "saved" then returned saved else no_object;
  print = λ v. "saved";
  unparsed = λ old s. absent;
  is_member = is_member;
  at = at;
  set = set;
  is_null = λ v. false;
  equals = λ v s. false;
  keys = λ v. [];
  elements = λ v. [];
  as_string = as_string;
  as_c_string = λ v. returned "";
  as_bool = λ v. returned false;
  as_int = as_int;
  as_uint = λ v. returned 0;
  as_double = λ v. returned zero_double;
  as_float = λ v. returned zero_double;
}

read_in-set_in : (m : Members) (k : String) (x : Doc) → read_in (set_in m k x) k ≡ x
read_in-set_in no_members k x = rw eq_refl
read_in-set_in (member j v m) k x = ground (arith, read_in-set_in m k x, eq_refl k, eq_refl j)

has_in-set_in : (m : Members) (k : String) (x : Doc) → has_in (set_in m k x) k ≡ true
has_in-set_in no_members k x = rw eq_refl
has_in-set_in (member j v m) k x = ground (arith, has_in-set_in m k x, eq_refl k, eq_refl j)

read_in-set_in_other :
    (m : Members) (k j : String) (x : Doc)
    → str_eq k j ≡ false
    → read_in (set_in m k x) j ≡ read_in m j
read_in-set_in_other no_members k j x h = rw h
read_in-set_in_other (member i v m) k j x h =
    ground (arith, read_in-set_in_other m k j x h, eq_iff i k, eq_iff i j, eq_iff k j)

has_in-set_in_other :
    (m : Members) (k j : String) (x : Doc)
    → str_eq k j ≡ false
    → has_in (set_in m k x) j ≡ has_in m j
has_in-set_in_other no_members k j x h = rw h
has_in-set_in_other (member i v m) k j x h =
    ground (arith, has_in-set_in_other m k j x h, eq_iff i k, eq_iff i j, eq_iff k j)

at_set : (v x v' : Doc) (k : String) → set v k x ≡ returned v' → at v' k ≡ returned x
at_set absent x v' k h = subst (λ u. at u k ≡ returned x) (returned-injective h) (rw eq_refl refl)
at_set (object m) x v' k h =
    subst (λ u. at u k ≡ returned x) (returned-injective h) (ap returned (read_in-set_in m k x))
at_set (words s) x v' k h = cc
at_set (number n) x v' k h = cc
at_set (flag b) x v' k h = cc

member_set : (v x v' : Doc) (k : String) → set v k x ≡ returned v' → is_member v' k ≡ returned true
member_set absent x v' k h =
    subst (λ u. is_member u k ≡ returned true) (returned-injective h) (rw eq_refl refl)
member_set (object m) x v' k h =
    subst (λ u. is_member u k ≡ returned true) (returned-injective h)
      (ap returned (has_in-set_in m k x))
member_set (words s) x v' k h = cc
member_set (number n) x v' k h = cc
member_set (flag b) x v' k h = cc

at_other :
    (v x v' : Doc) (k j : String) → set v k x ≡ returned v' → str_eq k j ≡ false → at v' j ≡ at v j
at_other absent x v' k j h d =
    subst (λ u. at u j ≡ returned absent) (returned-injective h) (rw d refl)
at_other (object m) x v' k j h d =
    subst (λ u. at u j ≡ at (object m) j) (returned-injective h)
      (ap returned (read_in-set_in_other m k j x d))
at_other (words s) x v' k j h d = cc
at_other (number n) x v' k j h d = cc
at_other (flag b) x v' k j h d = cc

member_other :
    (v x v' : Doc) (k j : String)
    → set v k x ≡ returned v'
    → str_eq k j ≡ false
    → is_member v' j ≡ is_member v j
member_other absent x v' k j h d =
    subst (λ u. is_member u j ≡ returned false) (returned-injective h) (rw d refl)
member_other (object m) x v' k j h d =
    subst (λ u. is_member u j ≡ is_member (object m) j) (returned-injective h)
      (ap returned (has_in-set_in_other m k j x d))
member_other (words s) x v' k j h d = cc
member_other (number n) x v' k j h d = cc
member_other (flag b) x v' k j h d = cc

pub doc_json-Sets : (saved : Doc) → Sets (doc_json saved)
doc_json-Sets saved = record {
  at_set = at_set;
  member_set = member_set;
  at_other = at_other;
  member_other = member_other;
}

pub data IsObject : Doc → Type 0 where
  absent_is : IsObject absent
  object_is : (m : Members) → IsObject (object m)

abbrev tests : (v : Doc) (k : String) → IsObject v → (b : Bool) × (is_member v k ≡ returned b)
tests absent k o = (false, refl)
tests (object m) k o = (has_in m k, refl)
tests (words _) k o = elim o [ ]
tests (number _) k o = elim o [ ]
tests (flag _) k o = elim o [ ]

abbrev reads : (v : Doc) (k : String) → IsObject v → (x : Doc) × (at v k ≡ returned x)
reads absent k o = (absent, refl)
reads (object m) k o = (read_in m k, refl)
reads (words _) k o = elim o [ ]
reads (number _) k o = elim o [ ]
reads (flag _) k o = elim o [ ]

abbrev sets :
    (v x : Doc) (k : String) → IsObject v → (v' : Doc) × (set v k x ≡ returned v') × IsObject v'
sets absent x k o = (object (member k x no_members), refl, object_is _)
sets (object m) x k o = (object (set_in m k x), refl, object_is _)
sets (words _) x k o = elim o [ ]
sets (number _) x k o = elim o [ ]
sets (flag _) x k o = elim o [ ]

abbrev pub doc_objects : (saved : Doc) → Objects (doc_json saved)
doc_objects saved = record {
  IsObject = IsObject;
  null-IsObject = absent_is;
  empty-IsObject = object_is no_members;
  tests = tests;
  reads = reads;
  sets = sets;
}

abbrev pub build : Build
build = record {
  ssl_cert = "/etc/watched/ssl/backend.pem";
  ssl_key = "/etc/watched/ssl/backend.key";
  ssl_verify = "/etc/watched/ssl/backend.verify.pem";
  log_file = "/var/log/watched.back.log";
  dll_alert = "/usr/lib/watched/alerter.cpp";
  lua_alert = "/usr/lib/watched/alerter.lua";
}

-- The sections that a first start, without a file, makes.
abbrev pub backend_made : Doc
backend_made = object (
    member "SSL_cert" (words build.ssl_cert) (
      member "SSL_key" (words build.ssl_key) (
        member "SSL_verify" (words build.ssl_verify) (
          member "SSL_verify_name" (flag true) (
            member "central_id" (number (negsuc 0))
              (member "pool_freq" (number (pos 300)) no_members))))))

abbrev pub db_made : Doc
db_made = object (
    member "connection_string" (words "localhost:3306") (
      member "database_name" (words "watcheddb") (
        member "login" (words "watched")
          (member "password" (words "watched") (member "pool_size" (number (pos 32)) no_members)))))
