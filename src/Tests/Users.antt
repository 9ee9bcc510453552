-- ===== src/Tests/Users.antt =====
-- Runs of the authenticator and of the user's check.
use hev_socks5_core.Base.{◌≡◌, refl, none, some, [], ◌∷◌, ◌<◌, ◌+◌, ◌⊎◌, pos, length, arith}
use hev_socks5_core.Host.{unreferenced}
use hev_socks5_core.User.{User, compare_names, user_new, destruct}
use hev_socks5_core.User.Memory.{user_new-destruct}
use hev_socks5_core.Sockets.{grants, frees}
use hev_socks5_core.Authenticator.{Tree, authenticator_new, inorder, get, add, del, clear_loop}
use hev_socks5_core.Authenticator.Sorted.{IsSearchTree}
use hev_socks5_core.Authenticator.Find.{find, get-find}
use hev_socks5_core.Authenticator.Change.{add_spec, del_spec, add_refines, del_refines}
use hev_socks5_core.Authenticator.Life.{add_all, add_all-find}
use hev_socks5_core.Authenticator.Clear.{drops, clear_lem}
use hev_socks5_core.Tests.Worlds.{calm, alice, carol, two_users, unbalanced}

two_users-IsSearchTree : IsSearchTree two_users
unfolding compare_names
two_users-IsSearchTree = ((refl, tt), (tt, tt))

get-alice : get two_users (97 ∷ []) ≡ some alice
unfolding get compare_names
get-alice = refl

get_nobody : get two_users (97 ∷ 97 ∷ []) ≡ none
unfolding get compare_names
get_nobody = refl

get-find_example : get two_users (97 ∷ []) ≡ find (97 ∷ []) (inorder two_users)
get-find_example = get-find two_users (97 ∷ []) two_users-IsSearchTree

add_refines_example :
    IsSearchTree (add unbalanced carol two_users).1
    × (((add unbalanced carol two_users).0, get (add unbalanced carol two_users).1)
        ≡ add_spec carol (get two_users))
add_refines_example = add_refines unbalanced two_users two_users-IsSearchTree carol

del_refines_example :
    let (res, t', trace') = del unbalanced (97 ∷ []) two_users [] in
    IsSearchTree t' × ((res, get t', trace') ≡ del_spec (97 ∷ []) (get two_users) [])
del_refines_example = del_refines unbalanced two_users two_users-IsSearchTree (97 ∷ []) []

three_rounds : length (inorder two_users) < 3
three_rounds = ground arith

clear_lem_example :
    let (_, t', trace') = clear_loop unbalanced 3 two_users [] in
    (inorder t' ≡ []) × (trace' ≡ drops (inorder two_users) [])
clear_lem_example = clear_lem unbalanced 3 two_users [] three_rounds

cleared : drops (inorder two_users) [] ≡ unreferenced 1 ∷ unreferenced 2 ∷ []
unfolding drops
cleared = refl

user_new-destruct_example :
    let (made, t1) = user_new (calm []) 40 4 (pos 0) (97 ∷ []) (98 ∷ []) [] in
    ((made ≡ none) × (grants t1 + frees [] ≡ grants [] + frees t1))
    ⊎ ((u : User) × (made ≡ some u)
        × (u.name ≡ 97 ∷ [])
        × (u.pass ≡ 98 ∷ [])
        × (grants (destruct u t1).2 + frees [] ≡ grants [] + frees (destruct u t1).2))
user_new-destruct_example = user_new-destruct (calm []) 40 4 (pos 0) (97 ∷ []) (98 ∷ []) []

add_all-find_example :
    let (made, _) = authenticator_new (calm []) 64 (pos 0) [] in
    (made ≡ none)
    ⊎ ((empty : Tree) × (made ≡ some empty)
        × (get (add_all unbalanced (alice ∷ carol ∷ alice ∷ []) empty) (97 ∷ [])
            ≡ find (97 ∷ []) (alice ∷ carol ∷ alice ∷ [])))
add_all-find_example =
    add_all-find unbalanced (calm []) 64 (pos 0) [] (alice ∷ carol ∷ alice ∷ []) (97 ∷ [])
