-- ===== src/Session/Gate/Startup.antt =====
-- The start of the gate: the effect that reads the configuration and the stored session. The
-- refresh timer does not run before it has ended.
use the_cinder_project.Base.{
  ℕ, Bool, true, false, Option, none, some, or_else, List, [], Text, codes, ◌≡◌, refl, arith, ◌⊎◌,
  inl, inr,
}
use the_cinder_project.Model.{User}
use the_cinder_project.Session.Gate.{StoredSession, Gate, write}
use the_cinder_project.Session.Gate.Invariant.{IsValid}

abbrev pub dev_host : Text
dev_host = codes "http://127.0.0.1:7373"

abbrev default_label : Text
default_label = codes "Student device"

-- What `load_config` gave.
pub record Config : Type 0 where
  pub host_url : Option Text
  pub device_label : Option Text

-- The answer to `me()`, or its failure; the flags say whether the write to the store that follows
-- succeeds.
pub data Greeting : Type 0 where
  greets : User → Bool → Greeting
  turns_away : Bool → Greeting
  unreachable : Greeting

abbrev opened : Text → Text → Option StoredSession → List Text → Bool → Gate
opened url label stored known online = record {
  loading = false;
  base_url = url;
  device_label = label;
  api = 0;
  apis = λ _. record { url = url; bearer = none };
  next_api = 1;
  user = none;
  token = none;
  online = online;
  temporary_password = [];
  connection_open = false;
  known_accounts = known;
  generation = 0;
  in_flight = none;
  next_ticket = 0;
  stored = stored;
  pending = [];
  connect = [];
}

abbrev signed : Text → StoredSession → User → Bool → Gate → Gate
signed url s user online g = record g {
  apis = λ _. record { url = url; bearer = some s.token };
  user = some user;
  token = some s.token;
  online = online;
}

-- With a stored session whose address is in order.
greeted : Greeting → Text → Text → StoredSession → List Text → Gate
greeted (greets user saved) url label s known = signed url s user true (
    opened url label
      (write saved (some (record { base_url = s.base_url; token = s.token; user = user })) (some s))
      known true)
greeted (turns_away cleared) url label s known =
    record (opened url label (write cleared none (some s)) known false) { generation = 1 }
greeted unreachable url label s known =
    signed url s s.user false (opened url label (some s) known false)

module _ (normalize : Text → Option Text) where
  -- The address of the configuration, or the one for development.
  config_url : Config → Text
  config_url config = or_else (normalize (or_else config.host_url dev_host)) dev_host

  -- A stored session, by the result of `normalize` at its address; one that is refused is erased.
  resumed : Option Text → StoredSession → Config → Text → Bool → Greeting → Bool → List Text → Gate
  unfolding config_url greeted
  resumed (some url) s config label probe greeting cleared known =
      greeted greeting url label s known
  resumed none s config label probe greeting cleared known =
      opened (config_url config) label (write cleared none (some s)) known probe

  unfoldable pub startup : Config → Option StoredSession → Greeting → Bool → Bool → List Text → Gate
  unfolding resumed
  startup config (some s) greeting probe cleared known =
      resumed (normalize s.base_url) s config (or_else config.device_label default_label) probe
        greeting cleared known
  startup config none greeting probe cleared known =
      opened (config_url config) (or_else config.device_label default_label) none known probe

fresh-IsValid :
    (g : Gate) (n : ℕ)
    → IsValid (record (opened g.base_url g.device_label g.stored g.known_accounts g.online) {
      generation = n;
    })
fresh-IsValid g n = record {
  both = refl;
  bearer = refl;
  address = refl;
  made = omega arith;
  connecting = refl;
  waiting = tt;
  distinct = tt;
}

signed-IsValid :
    (url : Text) (s : StoredSession) (u : User) (b : Bool) (g : Gate)
    → IsValid (signed url s u b (opened url g.device_label g.stored g.known_accounts g.online))
signed-IsValid url s u b g = record {
  both = refl;
  bearer = refl;
  address = refl;
  made = omega arith;
  connecting = refl;
  waiting = tt;
  distinct = tt;
}

-- Where a token in use comes from.
abbrev pub FromStore : (Text → Option Text) → Option StoredSession → Gate → Type 0
FromStore normalize stored g =
    (g.user ≡ none)
    ⊎ ((s : StoredSession) × (stored ≡ some s)
        × (normalize s.base_url ≡ some g.base_url)
        × (g.token ≡ some s.token))

resumed-IsValid :
    (normalize : Text → Option Text) (o : Option Text) (s : StoredSession) (config : Config)
    (label : Text) (probe : Bool) (greeting : Greeting) (cleared : Bool) (known : List Text)
    → normalize s.base_url ≡ o
    → IsValid (resumed normalize o s config label probe greeting cleared known)
      × FromStore normalize
          (some s)
          (resumed normalize o s config label probe greeting cleared known)
unfolding resumed
resumed-IsValid normalize none s config label probe greeting cleared known e = (
  fresh-IsValid
      (opened (config_url normalize config) label (write cleared none (some s)) known probe) 0,
  inl refl,
)
resumed-IsValid normalize (some url) s config label probe (greets u saved) cleared known e = (
  signed-IsValid url s u true (
      opened url label
        (write saved (some (record { base_url = s.base_url; token = s.token; user = u })) (some s))
        known true),
  inr (s, refl, e, refl),
)
resumed-IsValid normalize (some url) s config label probe (turns_away c) cleared known e =
    (fresh-IsValid (opened url label (write c none (some s)) known false) 1, inl refl)
resumed-IsValid normalize (some url) s config label probe unreachable cleared known e = (
  signed-IsValid url s s.user false (opened url label (some s) known false),
  inr (s, refl, e, refl),
)

-- However the start goes, it leaves a valid gate; and if a user is signed in after it, the token is
-- that of the stored session, and the address in use is the stored one, normalised.
pub startup-IsValid :
    (normalize : Text → Option Text) (config : Config) (stored : Option StoredSession)
    (greeting : Greeting) (probe cleared : Bool) (known : List Text)
    → IsValid (startup normalize config stored greeting probe cleared known)
      × FromStore normalize stored (startup normalize config stored greeting probe cleared known)
unfolding startup
startup-IsValid normalize config none greeting probe cleared known = (
  fresh-IsValid
      (opened (config_url normalize config) (or_else config.device_label default_label) none known
        probe)
      0,
  inl refl,
)
startup-IsValid normalize config (some s) greeting probe cleared known =
    resumed-IsValid normalize (normalize s.base_url) s config
      (or_else config.device_label default_label) probe greeting cleared known refl
