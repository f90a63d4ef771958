-- ===== src/Market/Codes.antt =====
-- The tables of the market's categories.
use pelican_egg_dune_awakeni.Base.{
  ℕ, ◌&&◌, List, [], ◌∷◌, Option, none, some, Text, codes, text_eq, if◌then◌else◌,
}

-- `_KNOWN_CODES[1]`
abbrev pub depth1_codes : List (Text × ℕ)
depth1_codes =
    (codes "garment", 0)
    ∷ (codes "weapons", 1)
    ∷ (codes "vehicles", 2)
    ∷ (codes "utility", 3)
    ∷ (codes "augment", 4)
    ∷ (codes "misc", 5)
    ∷ []

-- `_KNOWN_CODES[2]`
abbrev pub depth2_codes : List (Text × ℕ)
depth2_codes =
    (codes "lightarmor", 0)
    ∷ (codes "heavyarmor", 1)
    ∷ (codes "stillsuits", 2)
    ∷ (codes "utilitywearables", 3)
    ∷ (codes "socialwearables", 4)
    ∷ (codes "pistol", 2)
    ∷ (codes "heavypistol", 3)
    ∷ (codes "heavyrifle", 4)
    ∷ (codes "smg", 5)
    ∷ (codes "spitdart", 6)
    ∷ (codes "shotgun", 7)
    ∷ (codes "battlerifle", 8)
    ∷ (codes "heavyshotgun", 9)
    ∷ (codes "missilelauncher", 10)
    ∷ (codes "flamethrower", 11)
    ∷ (codes "fireballer", 12)
    ∷ (codes "lasgun", 13)
    ∷ (codes "ammunition", 14)
    ∷ (codes "sandbike", 0)
    ∷ (codes "buggy", 1)
    ∷ (codes "lightornithopter", 2)
    ∷ (codes "mediumornithopter", 3)
    ∷ (codes "transportornithopter", 4)
    ∷ (codes "sandcrawler", 5)
    ∷ (codes "buildingtools", 0)
    ∷ (codes "hydrationtools", 2)
    ∷ (codes "gatheringtools", 3)
    ∷ (codes "cartographytools", 4)
    ∷ (codes "utilitytools", 5)
    ∷ (codes "consumables", 6)
    ∷ (codes "armor", 0)
    ∷ (codes "melee", 1)
    ∷ (codes "ranged", 2)
    ∷ (codes "misc", 3)
    ∷ (codes "fuel", 0)
    ∷ (codes "refinedresources", 1)
    ∷ (codes "components", 2)
    ∷ (codes "rawresources", 3)
    ∷ []

-- `_KNOWN_CODES[3]`
abbrev pub depth3_codes : List (Text × ℕ)
depth3_codes = (codes "cutteray", 0) ∷ (codes "compactor", 1) ∷ []

-- `_DEPTH3_PARENT`
abbrev pub depth3_parents : List ((Text × Text) × ℕ)
depth3_parents =
    ((codes "lightarmor", codes "head"), 0)
    ∷ ((codes "lightarmor", codes "chest"), 1)
    ∷ ((codes "lightarmor", codes "legs"), 2)
    ∷ ((codes "lightarmor", codes "hands"), 3)
    ∷ ((codes "lightarmor", codes "feet"), 4)
    ∷ ((codes "heavyarmor", codes "head"), 0)
    ∷ ((codes "heavyarmor", codes "chest"), 1)
    ∷ ((codes "heavyarmor", codes "legs"), 2)
    ∷ ((codes "heavyarmor", codes "hands"), 3)
    ∷ ((codes "heavyarmor", codes "feet"), 4)
    ∷ ((codes "stillsuits", codes "head"), 0)
    ∷ ((codes "stillsuits", codes "chest"), 1)
    ∷ ((codes "stillsuits", codes "hands"), 2)
    ∷ ((codes "stillsuits", codes "feet"), 3)
    ∷ ((codes "socialwearables", codes "chest"), 0)
    ∷ ((codes "socialwearables", codes "legs"), 1)
    ∷ ((codes "socialwearables", codes "hands"), 2)
    ∷ ((codes "socialwearables", codes "feet"), 3)
    ∷ ((codes "sandbike", codes "chassis"), 0)
    ∷ ((codes "sandbike", codes "hull"), 1)
    ∷ ((codes "sandbike", codes "engine"), 2)
    ∷ ((codes "sandbike", codes "psu"), 3)
    ∷ ((codes "sandbike", codes "locomotion"), 4)
    ∷ ((codes "sandbike", codes "utility"), 5)
    ∷ ((codes "buggy", codes "chassis"), 0)
    ∷ ((codes "buggy", codes "hull"), 1)
    ∷ ((codes "buggy", codes "rear"), 2)
    ∷ ((codes "buggy", codes "engine"), 3)
    ∷ ((codes "buggy", codes "psu"), 4)
    ∷ ((codes "buggy", codes "locomotion"), 5)
    ∷ ((codes "buggy", codes "turret"), 6)
    ∷ ((codes "buggy", codes "utility"), 7)
    ∷ ((codes "lightornithopter", codes "chassis"), 0)
    ∷ ((codes "lightornithopter", codes "cockpit"), 1)
    ∷ ((codes "lightornithopter", codes "hull"), 2)
    ∷ ((codes "lightornithopter", codes "engine"), 3)
    ∷ ((codes "lightornithopter", codes "psu"), 4)
    ∷ ((codes "lightornithopter", codes "locomotion"), 5)
    ∷ ((codes "lightornithopter", codes "utility"), 6)
    ∷ ((codes "mediumornithopter", codes "chassis"), 0)
    ∷ ((codes "mediumornithopter", codes "cabin"), 1)
    ∷ ((codes "mediumornithopter", codes "cockpit"), 2)
    ∷ ((codes "mediumornithopter", codes "tail"), 3)
    ∷ ((codes "mediumornithopter", codes "engine"), 4)
    ∷ ((codes "mediumornithopter", codes "psu"), 5)
    ∷ ((codes "mediumornithopter", codes "locomotion"), 6)
    ∷ ((codes "mediumornithopter", codes "utility"), 7)
    ∷ ((codes "transportornithopter", codes "chassis"), 0)
    ∷ ((codes "transportornithopter", codes "hull"), 1)
    ∷ ((codes "transportornithopter", codes "engine"), 2)
    ∷ ((codes "transportornithopter", codes "psu"), 3)
    ∷ ((codes "transportornithopter", codes "locomotion"), 4)
    ∷ ((codes "transportornithopter", codes "utility"), 5)
    ∷ ((codes "sandcrawler", codes "chassis"), 0)
    ∷ ((codes "sandcrawler", codes "cabin"), 1)
    ∷ ((codes "sandcrawler", codes "engine"), 2)
    ∷ ((codes "sandcrawler", codes "psu"), 3)
    ∷ ((codes "sandcrawler", codes "locomotion"), 4)
    ∷ ((codes "sandcrawler", codes "utility"), 5)
    ∷ ((codes "hydrationtools", codes "watertools"), 0)
    ∷ ((codes "hydrationtools", codes "bloodtools"), 1)
    ∷ ((codes "utilitytools", codes "powerpack"), 0)
    ∷ ((codes "utilitytools", codes "suspensor"), 1)
    ∷ ((codes "utilitytools", codes "utility"), 3)
    ∷ ((codes "consumables", codes "utility"), 2)
    ∷ []

-- `_UNIQUE_SCHEM_D2`
abbrev pub unique_depth2 : List (Text × ℕ)
unique_depth2 =
    (codes "garment", 5)
    ∷ (codes "weapons", 3)
    ∷ (codes "vehicles", 6)
    ∷ (codes "utility", 7)
    ∷ (codes "augment", 4)
    ∷ []

-- `_UNIQUE_SCHEM_D3`
abbrev pub unique_depth3 : List (Text × ℕ)
unique_depth3 =
    (codes "lightarmor", 0)
    ∷ (codes "heavyarmor", 1)
    ∷ (codes "stillsuits", 2)
    ∷ (codes "utilitywearables", 3)
    ∷ (codes "socialwearables", 4)
    ∷ (codes "shortblades", 0)
    ∷ (codes "longblades", 1)
    ∷ (codes "pistol", 2)
    ∷ (codes "heavypistol", 3)
    ∷ (codes "heavyrifle", 4)
    ∷ (codes "smg", 5)
    ∷ (codes "spitdart", 6)
    ∷ (codes "shotgun", 7)
    ∷ (codes "battlerifle", 8)
    ∷ (codes "heavyshotgun", 9)
    ∷ (codes "missilelauncher", 10)
    ∷ (codes "flamethrower", 11)
    ∷ (codes "fireballer", 12)
    ∷ (codes "lasgun", 13)
    ∷ (codes "sandbike", 0)
    ∷ (codes "buggy", 1)
    ∷ (codes "lightornithopter", 2)
    ∷ (codes "mediumornithopter", 3)
    ∷ (codes "transportornithopter", 4)
    ∷ (codes "sandcrawler", 5)
    ∷ (codes "deployables", 0)
    ∷ (codes "watertools", 1)
    ∷ (codes "bloodtools", 2)
    ∷ (codes "cutteray", 3)
    ∷ (codes "staticcompactor", 4)
    ∷ (codes "cartographytools", 5)
    ∷ (codes "shield", 6)
    ∷ (codes "suspensor", 7)
    ∷ (codes "powerpack", 8)
    ∷ (codes "armor", 0)
    ∷ (codes "melee", 1)
    ∷ (codes "ranged", 2)
    ∷ (codes "misc", 3)
    ∷ []

unfoldable pub lookup : List (Text × ℕ) → Text → Option ℕ
lookup [] t = none
lookup ((u, n) ∷ rows) t = let rest = lookup rows t in if text_eq u t then some n else rest

unfoldable pub lookup_pair : List ((Text × Text) × ℕ) → Text → Text → Option ℕ
lookup_pair [] s t = none
lookup_pair ((u, n) ∷ rows) s t =
    let rest = lookup_pair rows s t in if text_eq u.0 s && text_eq u.1 t then some n else rest
