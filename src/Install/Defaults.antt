-- ===== src/Install/Defaults.antt =====
-- The RPC parameters that an installation fills in.
use pastelup.Base.{
  ℕ, zero, suc, ◌<◌, ◌==◌, ℤ, pos, Str, Bool, true, false, ◌||◌, ◌&&◌, [], ◌∷◌, some, none, ◌≡◌,
  ◌⊎◌, inl, inr, refl, ap, sym, ◌∙◌, arith, if◌then◌else◌, leb, length, get_elem?, is_empty, str_eq,
}
use pastelup.Constants.{OsType, network_testnet, network_regtest, network_devnet}
use pastelup.Constants.Ports.{
  testnet_port_list, regtest_port_list, devnet_port_list, mainnet_port_list, get_sn_port_list,
  node_rpc_port,
}
use pastelup.Configs.{Config}
use pastelup.Host.{Host}
use pastelup.Start.{port_at}
use pastelup.Disk.{Disk, random_chars, char_at, generate_random_string}
use pastelup.Install.{
  is_no_port, default_rpc_port, default_rpc_user, default_rpc_pwd, get_default_rpc_parameters,
}

-- A letter or a digit
abbrev pub is_alphanumeric : ℕ → Bool
is_alphanumeric c =
    (leb b'0' c && leb c b'9') || ((leb b'A' c && leb c b'Z') || (leb b'a' c && leb c b'z'))

unfoldable pub are_alphanumeric : Str → Bool
are_alphanumeric [] = true
are_alphanumeric (c ∷ s) = is_alphanumeric c && are_alphanumeric s

-- A generated text: this many letters and digits
abbrev pub IsGenerated : ℕ → Str → Type 0
IsGenerated n s = (length s ≡ n) × (are_alphanumeric s ≡ true)

nth_alphanumeric :
    (s : Str) (i : ℕ)
    → i < length s
    → are_alphanumeric s ≡ true
    → is_alphanumeric (elim (get_elem? s i) [ some c ↦ c | none ↦ 0 ]) ≡ true
unfolding are_alphanumeric
nth_alphanumeric [] i below all = absurd (omega arith)
nth_alphanumeric (c ∷ s) zero below all = ground arith
nth_alphanumeric (c ∷ s) (suc i) below all = nth_alphanumeric s i (omega arith) (ground arith)

random_chars_lem : are_alphanumeric random_chars ≡ true
unfolding are_alphanumeric random_chars
random_chars_lem = refl

char_at_lem : (i : ℕ) → i < 62 → is_alphanumeric (char_at i) ≡ true
unfolding random_chars char_at
char_at_lem i below = nth_alphanumeric random_chars i below random_chars_lem

listed :
    (a b c : Bool)
    → (port_at
          (if a
            then testnet_port_list
            else if b
            then regtest_port_list
            else if c
            then devnet_port_list
            else mainnet_port_list)
          node_rpc_port
        == 0)
      ≡ false
unfolding port_at
listed true b c = refl
listed false true c = refl
listed false false true = refl
listed false false false = refl

port_at-node_rpc_port :
    (network : Str) → (port_at (get_sn_port_list network) node_rpc_port == 0) ≡ false
unfolding get_sn_port_list
port_at-node_rpc_port network =
    listed (str_eq network network_testnet) (str_eq network network_regtest)
      (str_eq network network_devnet)

-- A new value is taken: there was none, or a new one is asked for.
abbrev pub IsNew : Bool → Bool → Type 0
IsNew lacking regen = (lacking ≡ true) ⊎ (regen ≡ true)

-- A text is the one that was given if there was one and no new one is asked for, and else a
-- generated text of the length.
abbrev pub IsChosen : ℕ → Bool → Str → Str → Type 0
IsChosen n regen given used =
    ((regen ≡ false) × (is_empty given ≡ false) × (used ≡ given))
    ⊎ (IsNew (is_empty given) regen × IsGenerated n used)

-- The same of the port, with the one of the network in place of a generated text.
abbrev pub IsChosenPort : Str → Bool → ℤ → ℤ → Type 0
IsChosenPort network regen given used =
    ((regen ≡ false) × (is_no_port given ≡ false) × (used ≡ given))
    ⊎ (IsNew (is_no_port given) regen
        × (used ≡ pos (port_at (get_sn_port_list network) node_rpc_port)))

-- What both branches have
either :
    {A B : Type 0} (b : Bool) (f : A → B) (x y : A) (z : B)
    → f x ≡ z
    → f y ≡ z
    → f (if b then x else y) ≡ z
either true f x y z hx hy = hx
either false f x y z hx hy = hy

-- Generated where there was no text or a new one is asked for
generated :
    {A : Type 0} (n : ℕ) (f : A → Str) (x y : A) (given : Str) (lacking regen : Bool)
    → is_empty given ≡ lacking
    → IsGenerated n (f x)
    → f y ≡ given
    → IsChosen n regen given (f (if lacking || regen then x else y))
generated n f x y given true regen same made kept = inr (inl same, made)
generated n f x y given false true same made kept = inr (inr refl, made)
generated n f x y given false false same made kept = inl (refl, same, kept)

listed_port :
    {A : Type 0} (network : Str) (f : A → ℤ) (x y : A) (given : ℤ) (lacking regen : Bool)
    → is_no_port given ≡ lacking
    → f x ≡ pos (port_at (get_sn_port_list network) node_rpc_port)
    → f y ≡ given
    → IsChosenPort network regen given (f (if lacking || regen then x else y))
listed_port network f x y given true regen same table kept = inr (inl same, table)
listed_port network f x y given false true same table kept = inr (inr refl, table)
listed_port network f x y given false false same table kept = inl (refl, same, kept)

-- A chosen port is one.
chosen-port :
    (network : Str) (regen : Bool) (given used : ℤ)
    → IsChosenPort network regen given used
    → is_no_port used ≡ false
chosen-port network regen given used (inl (old, there, same)) = rw same there
chosen-port network regen given used (inr (new, same)) = rw same (port_at-node_rpc_port network)

same_choice :
    (n : ℕ) (r r' : Bool) (given given' used used' : Str)
    → r' ≡ r
    → given' ≡ given
    → used' ≡ used
    → IsChosen n r given used
    → IsChosen n r' given' used'
same_choice n r r' given given' used used' same_r same_given same_used chosen =
    rw (same_r, same_given, same_used) chosen

module _ {W : Type 0} (host : Host W) (disk : Disk W) (os : OsType)
    (random_lem : (n : ℕ) (w : W) → 0 < n → (disk.random n w).0 < n) where
  generate_random_string-IsGenerated :
      (n : ℕ) (w : W) → IsGenerated n (generate_random_string host disk os n w).0
  unfolding generate_random_string are_alphanumeric
  generate_random_string-IsGenerated zero w = (refl, refl)
  generate_random_string-IsGenerated (suc n) w =
      let (i, u) = disk.random 62 w in
      let later = generate_random_string-IsGenerated n (disk.random 62 w).1 in
      let first = char_at_lem (disk.random 62 w).0 (random_lem 62 w (omega arith)) in
      (ap suc later.0, ground arith)

  user_step :
      (config : Config) (w : W)
      → IsChosen 8 config.regen_rpc config.rpc_user
          (default_rpc_user host disk os config w).0.rpc_user
  unfolding default_rpc_user
  user_step config w =
      let (name, v) = generate_random_string host disk os 8 w in
      generated 8 (λ (o : Config × W). o.0.rpc_user) (record config { rpc_user = name }, v)
        (config, w) config.rpc_user (is_empty config.rpc_user) config.regen_rpc refl
        (generate_random_string-IsGenerated 8 w) refl

  user_keeps :
      {B : Type 0} (f : Config → B) (config : Config) (w : W)
      → ((name : Str) → f (record config { rpc_user = name }) ≡ f config)
      → f (default_rpc_user host disk os config w).0 ≡ f config
  unfolding default_rpc_user
  user_keeps f config w same =
      let (name, v) = generate_random_string host disk os 8 w in
      either (is_empty config.rpc_user || config.regen_rpc) (λ (o : Config × W). f o.0)
        (record config { rpc_user = name }, v) (config, w) (f config) (same name) refl

  pwd_step :
      (config : Config) (w : W)
      → IsChosen 15 config.regen_rpc config.rpc_pwd
          (default_rpc_pwd host disk os config w).0.rpc_pwd
  unfolding default_rpc_pwd
  pwd_step config w =
      let (password, v) = generate_random_string host disk os 15 w in
      generated 15 (λ (o : Config × W). o.0.rpc_pwd) (record config { rpc_pwd = password }, v)
        (config, w) config.rpc_pwd (is_empty config.rpc_pwd) config.regen_rpc refl
        (generate_random_string-IsGenerated 15 w) refl

  pwd_keeps :
      {B : Type 0} (f : Config → B) (config : Config) (w : W)
      → ((password : Str) → f (record config { rpc_pwd = password }) ≡ f config)
      → f (default_rpc_pwd host disk os config w).0 ≡ f config
  unfolding default_rpc_pwd
  pwd_keeps f config w same =
      let (password, v) = generate_random_string host disk os 15 w in
      either (is_empty config.rpc_pwd || config.regen_rpc) (λ (o : Config × W). f o.0)
        (record config { rpc_pwd = password }, v) (config, w) (f config) (same password) refl

  port_step :
      (config : Config)
      → IsChosenPort config.network config.regen_rpc config.rpc_port
          (default_rpc_port host disk os config).rpc_port
  unfolding default_rpc_port
  port_step config =
      listed_port config.network (λ (c : Config). c.rpc_port)
        (record config { rpc_port = pos (port_at (get_sn_port_list config.network) node_rpc_port) })
        config config.rpc_port (is_no_port config.rpc_port) config.regen_rpc refl refl refl

  port_keeps :
      {B : Type 0} (f : Config → B) (config : Config)
      → ((port : ℤ) → f (record config { rpc_port = port }) ≡ f config)
      → f (default_rpc_port host disk os config) ≡ f config
  unfolding default_rpc_port
  port_keeps f config same =
      either (is_no_port config.rpc_port || config.regen_rpc) f
        (record config { rpc_port = pos (port_at (get_sn_port_list config.network) node_rpc_port) })
        config (f config) (same (pos (port_at (get_sn_port_list config.network) node_rpc_port)))
        refl

  -- After `getDefaultRPCParameters` the port, the user and the password are those that were given,
  -- where they were given and no new ones are asked for; and where one was not given or new ones are
  -- asked for, the port is the RPC port of the network, and user and password are texts of 8 and of
  -- 15 letters and digits, if `Intn` stays below its argument. The port is not 0.
  pub get_default_rpc_parameters-IsChosen :
      (config : Config) (w : W)
      → (is_no_port (get_default_rpc_parameters host disk os config w).0.rpc_port ≡ false)
        × IsChosenPort config.network config.regen_rpc config.rpc_port
            (get_default_rpc_parameters host disk os config w).0.rpc_port
        × (IsChosen 8 config.regen_rpc config.rpc_user
              (get_default_rpc_parameters host disk os config w).0.rpc_user
            × IsChosen 15 config.regen_rpc config.rpc_pwd
                (get_default_rpc_parameters host disk os config w).0.rpc_pwd)
  unfolding get_default_rpc_parameters
  get_default_rpc_parameters-IsChosen config w =
      let first = default_rpc_port host disk os config in
      let (second, u) = default_rpc_user host disk os first w in
      let port = port_step config in
      let same_port =
        pwd_keeps (λ c. c.rpc_port) second u (λ s. refl)
        ∙ user_keeps (λ c. c.rpc_port) first w (λ s. refl) in
      let user =
        same_choice 8 first.regen_rpc config.regen_rpc first.rpc_user config.rpc_user
          second.rpc_user _ (sym (port_keeps (λ c. c.regen_rpc) config (λ p. refl)))
          (sym (port_keeps (λ c. c.rpc_user) config (λ p. refl)))
          (pwd_keeps (λ c. c.rpc_user) second u (λ s. refl)) (user_step first w) in
      let pwd =
        same_choice 15 second.regen_rpc config.regen_rpc second.rpc_pwd config.rpc_pwd _ _
          (sym (
            user_keeps (λ c. c.regen_rpc) first w (λ s. refl)
            ∙ port_keeps (λ c. c.regen_rpc) config (λ p. refl)))
          (sym (
            user_keeps (λ c. c.rpc_pwd) first w (λ s. refl)
            ∙ port_keeps (λ c. c.rpc_pwd) config (λ p. refl)))
          refl (pwd_step second u) in
      (
        rw same_port
            (chosen-port config.network config.regen_rpc config.rpc_port first.rpc_port port),
        rw same_port port,
        (user, pwd),
      )
