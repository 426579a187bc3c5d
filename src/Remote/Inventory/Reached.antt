-- ===== src/Remote/Inventory/Reached.antt =====
-- With which parameters the servers of a group are reached, and with which they are to be.
use pastelup.Base.{
  ℤ, pos, Str, true, List, map, [], ◌∷◌, ◌++◌, is_empty, if◌then◌else◌, ◌≡◌, refl, ap, ◌∙◌, arith,
  All,
}
use pastelup.Configs.{Config}
use pastelup.Remote.Inventory.{
  InventoryServer, CommonInventoryParameters, Inventory, is_zero, port_or, text_or, enter_group,
  enter_server, is_selected,
}

-- What the second server leaves to its group, the first one leaves to it too.
abbrev pub Covers : InventoryServer → InventoryServer → Type 0
Covers t s =
    (is_empty t.user ≡ true → is_empty s.user ≡ true)
    × (is_empty t.identity_file ≡ true → is_empty s.identity_file ≡ true)
    × (is_zero t.port ≡ true → is_zero s.port ≡ true)

-- No server gives a parameter that a later one of the group leaves out.
abbrev pub NoLeaks : List InventoryServer → Type 0
NoLeaks [] = Unit
NoLeaks (s ∷ rest) = All (λ t. Covers t s) rest × NoLeaks rest

pub text_or-text_or :
    (t s d : Str) → (is_empty t ≡ true → is_empty s ≡ true) → text_or t (text_or s d) ≡ text_or t d
text_or-text_or t s d h = ground arith

pub port_or-port_or :
    (t s d : ℤ)
    → (is_zero t ≡ true → is_zero s ≡ true)
    → port_or (port_or t (port_or (port_or s d) (pos 22))) (pos 22) ≡ port_or (port_or t d) (pos 22)
unfolding is_zero
port_or-port_or t s d h = ground arith

-- A server's parameters are not those of one before that it covers.
enter_server-enter_server :
    (t s : InventoryServer) (c : Config)
    → Covers t s
    → enter_server t (enter_server s c) ≡ enter_server t c
unfolding enter_server
enter_server-enter_server t s c (users, keys, ports) = λ i. record c {
  remote_user = text_or-text_or t.user s.user c.remote_user users i;
  remote_ip = t.address;
  remote_port = port_or-port_or t.port s.port c.remote_port ports i;
  remote_ssh_key = text_or-text_or t.identity_file s.identity_file c.remote_ssh_key keys i;
}

-- The configurations with which the servers of a group are to be reached: each server's own
-- parameters, or else those of the group.
abbrev pub own_configs : CommonInventoryParameters → Config → List InventoryServer → List Config
own_configs common config = map (λ s. enter_server s (enter_group common config))

-- The same for the groups that the filter lets through.
abbrev pub targets : List Str → Config → Inventory → List Config
targets fs config [] = []
targets fs config (sg ∷ rest) =
    (if is_selected fs sg then own_configs sg.common config sg.servers else [])
    ++ targets fs config rest

-- The configuration behind the loops
unfoldable pub left_by : List InventoryServer → Config → Config
left_by [] c = c
left_by (s ∷ rest) c = left_by rest (enter_server s c)

unfoldable pub left_by_all : List Str → Inventory → Config → Config
left_by_all fs [] c = c
left_by_all fs (sg ∷ rest) c =
    left_by_all fs rest
      (if is_selected fs sg then left_by sg.servers (enter_group sg.common c) else c)

-- The loops write the four parameters alone, which a group sets anew.
pub enter_group-left_by :
    (common : CommonInventoryParameters) (servers : List InventoryServer) (c : Config)
    → enter_group common (left_by servers c) ≡ enter_group common c
unfolding left_by enter_group enter_server
enter_group-left_by common [] c = refl
enter_group-left_by common (s ∷ rest) c = enter_group-left_by common rest (enter_server s c)

abbrev pub SameBut : Config → Config → Type 0
SameBut c d = (common : CommonInventoryParameters) → enter_group common c ≡ enter_group common d

pub targets-SameBut :
    (fs : List Str) (c d : Config) (inventory : Inventory)
    → SameBut c d
    → targets fs c inventory ≡ targets fs d inventory
targets-SameBut fs c d [] same = refl
targets-SameBut fs c d (sg ∷ rest) same = λ i.
    (if is_selected fs sg then map (λ s. enter_server s (same sg.common i)) sg.servers else [])
    ++ targets-SameBut fs c d rest same i

-- The configurations with which the servers of a group are reached: what one of them set stays.
abbrev pub reached : List InventoryServer → Config → List Config
reached [] c = []
reached (s ∷ rest) c = enter_server s c ∷ reached rest (enter_server s c)

-- Behind a server the later ones are reached as before it.
reached-enter_server :
    (s : InventoryServer) (c : Config) (rest : List InventoryServer)
    → All (λ t. Covers t s) rest
    → map (λ t. enter_server t (enter_server s c)) rest ≡ map (λ t. enter_server t c) rest
reached-enter_server s c [] covers = refl
reached-enter_server s c (t ∷ rest) covers =
    λ i. enter_server-enter_server t s c covers.0 i ∷ reached-enter_server s c rest covers.1 i

pub reached-NoLeaks :
    (servers : List InventoryServer) (c : Config)
    → NoLeaks servers
    → reached servers c ≡ map (λ t. enter_server t c) servers
reached-NoLeaks [] c leaks = refl
reached-NoLeaks (s ∷ rest) c leaks =
    ap (◌∷◌ (enter_server s c))
      (reached-NoLeaks rest (enter_server s c) leaks.1 ∙ reached-enter_server s c rest leaks.0)
