-- ===== src/Simulator/Pages/Tests.antt =====
-- A listing of two buckets by pages of two.
use copy_s3_to_oci.Base.{
  ℕ, ◌&&◌, arith, ◌≡◌, refl, Bool, true, none, some, List, [], ◌∷◌, ◌==◌, order_by, select,
}
use copy_s3_to_oci.Simulator.Pages.{Listed, by_key, follow, list_objects}
use copy_s3_to_oci.Simulator.Pages.Complete.{follow-list_objects}

abbrev object : ℕ → ℕ → Listed
object bucket key = record { bucket = bucket; key = key; size_bytes = 10 }

abbrev catalog : List Listed
catalog = object 1 30 ∷ object 1 10 ∷ object 2 15 ∷ object 1 20 ∷ []

abbrev of_bucket : Listed → Bool
of_bucket o = (o.bucket == 1) && true

second_page : list_objects 1 (λ key. true) (some 20) 2 catalog ≡ (object 1 30 ∷ [], none)
unfolding list_objects
second_page = refl

follow-list_objects_example :
    follow (λ token. list_objects 1 (λ key. true) token 2 catalog) 4 none
    ≡ order_by (by_key (λ o. o.key)) (select of_bucket catalog)
follow-list_objects_example =
    follow-list_objects 1 (λ key. true) catalog 2 4 ((refl, (refl, tt)), ((refl, tt), (tt, tt)))
      (omega arith) (omega arith)
