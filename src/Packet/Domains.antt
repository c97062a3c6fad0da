-- ===== src/Packet/Domains.antt =====
-- `PacketMetadata::domain_names` of src/packet/packet.cpp.
use packet_guard.Base.{
  Bool, true, false, not, List, [], ◌∷◌, ◌++◌, map, keep, some, none, ltb, ◌==◌, if◌then◌else◌,
  Text, text_eq, is_empty,
}
use packet_guard.Packet.Types.{DnsMessage, PacketMetadata}

-- `operator<` of `std::string`.
unfoldable pub text_before : Text → Text → Bool
text_before [] [] = false
text_before [] (d ∷ ds) = true
text_before (c ∷ cs) [] = false
text_before (c ∷ cs) (d ∷ ds) = let rest = text_before cs ds in if c == d then rest else ltb c d

-- `std::sort`; texts that the order does not tell apart are equal, so an insertion sort will do.
unfoldable pub insert_name : Text → List Text → List Text
unfolding text_before
insert_name n [] = n ∷ []
insert_name n (m ∷ rest) = if text_before m n then m ∷ insert_name n rest else n ∷ m ∷ rest

unfoldable pub sort_names : List Text → List Text
unfolding insert_name
sort_names [] = []
sort_names (n ∷ rest) = insert_name n (sort_names rest)

-- `std::unique`: of equal neighbours the first is kept.
unfoldable pub unique_names : List Text → List Text
unfolding text_eq
unique_names [] = []
unique_names (n ∷ []) = n ∷ []
unique_names (n ∷ m ∷ rest) =
    let others = unique_names (m ∷ rest) in if text_eq n m then skip_first n others else n ∷ others
  where
    skip_first : Text → List Text → List Text
    skip_first a [] = a ∷ []
    skip_first a (b ∷ bs) = a ∷ bs

unfoldable pub message_names : DnsMessage → List Text
message_names m =
    map (λ q. q.name) m.questions ++ keep (λ n. not (is_empty n)) (map (λ r. r.name) m.answers)

unfoldable pub domain_names : PacketMetadata → List Text
unfolding sort_names unique_names message_names
domain_names md = elim md.dns [ none ↦ [] | some m ↦ unique_names (sort_names (message_names m)) ]
