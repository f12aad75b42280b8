-- ===== src/Deploy/Traders.antt =====
-- The traders of a deployment: what holds after they are set up.
use perpetual_custom.Base.{ℕ, refl, [], ◌∷◌, Option, All}
use mathlib.Core.List.{Memᴰ}
use perpetual_custom.Base.Text.{Text, codes}
use perpetual_custom.Script.{Chain, create, text, number, optional, Log, Deployment, book_set}
use perpetual_custom.Deploy.{deploy_traders}
use perpetual_custom.Networks.{get_insurance_fee}
use perpetual_custom.Script.Steps.{
  After, After-request, After-proceed, After-set_address, After-address_of, After-set_last,
}
use perpetual_custom.Deploy.Promise.{Extends, IsOperator, Answered, OtherTraders}
use perpetual_custom.Deploy.Parts.{After-set_global_operators}

-- The traders are created, and made operators.
pub After-deploy_traders :
    (K : Chain) (P : Unit → Deployment → Type 0) (perpetual_proxy : Option Text) (network : ℕ)
    (s : Deployment)
    → ((log : Log) (orders inverse deleveraging liquidation converter liquidator weth : Text)
        → Extends s.log log
        → Answered log
            (create (codes "P1Orders") (optional perpetual_proxy ∷ number network ∷ []))
            orders
        → Answered log
            (create
              (codes "P1Deleveraging")
              (optional perpetual_proxy ∷ text K.deleveraging_account ∷ []))
            deleveraging
        → Answered log (create (codes "P1Liquidation") (optional perpetual_proxy ∷ [])) liquidation
        → Answered log
            (create (codes "P1LiquidatorProxy") (
              optional perpetual_proxy
              ∷ text liquidation
              ∷ text K.deployer_account
              ∷ text (get_insurance_fee network)
              ∷ []))
            liquidator
        → OtherTraders log perpetual_proxy network inverse converter weth
        → All
            (IsOperator log perpetual_proxy)
            (orders ∷ inverse ∷ deleveraging ∷ liquidation ∷ converter ∷ liquidator ∷ weth ∷ [])
        → P tt (record s {
          log = log;
          address_book = book_set (codes "P1LiquidatorProxy") liquidator (
              book_set (codes "P1WethProxy") weth (
                book_set (codes "P1CurrencyConverterProxy") converter (
                  book_set (codes "P1Deleveraging") deleveraging (
                    book_set
                      (codes "P1Liquidation")
                      liquidation
                      (book_set (codes "P1Orders") orders s.address_book)))));
        }))
    → After K P (deploy_traders K perpetual_proxy network s)
unfolding deploy_traders
After-deploy_traders K P perpetual_proxy network s h = After-request K P _ _ _ λ orders.
    After-request K P _ _ _ λ inverse. After-request K P _ _ _ λ deleveraging.
      After-request K P _ _ _ λ liquidation. After-request K P _ _ _ λ converter.
        After-request K P _ _ _ λ liquidator. After-address_of K P _ _ _ (
          After-request K P _ _ _ λ weth. After-request K P _ _ _ λ t1.
            After-request K P _ _ _ λ t2. After-request K P _ _ _ λ t3.
              After-request K P _ _ _ λ t4. After-proceed K P _ _ (
                After-set_global_operators K _ perpetual_proxy _ _ λ log ext ops.
                  After-set_address K P _ _ _ _ (
                    After-set_address K P _ _ _ _ (
                      After-set_address K P _ _ _ _ (
                        After-set_address K P _ _ _ _ (
                          After-set_address K P _ _ _ _ (
                            After-set_last K P _ _ _ (
                              h log orders inverse deleveraging liquidation converter liquidator
                                weth
                                (λ call t m. ext call t (
                                  Memᴰ.tail (
                                    Memᴰ.tail (
                                      Memᴰ.tail (
                                        Memᴰ.tail (
                                          Memᴰ.tail (
                                            Memᴰ.tail (
                                              Memᴰ.tail (
                                                Memᴰ.tail
                                                  (Memᴰ.tail (Memᴰ.tail (Memᴰ.tail m))))))))))))
                                (ext _ _ (
                                  Memᴰ.tail (
                                    Memᴰ.tail (
                                      Memᴰ.tail (
                                        Memᴰ.tail (
                                          Memᴰ.tail (
                                            Memᴰ.tail (
                                              Memᴰ.tail (
                                                Memᴰ.tail
                                                  (Memᴰ.tail (Memᴰ.tail (Memᴰ.head refl))))))))))))
                                (ext _ _ (
                                  Memᴰ.tail (
                                    Memᴰ.tail (
                                      Memᴰ.tail (
                                        Memᴰ.tail (
                                          Memᴰ.tail (
                                            Memᴰ.tail
                                              (Memᴰ.tail (Memᴰ.tail (Memᴰ.head refl))))))))))
                                (ext _ _ (
                                  Memᴰ.tail (
                                    Memᴰ.tail (
                                      Memᴰ.tail (
                                        Memᴰ.tail
                                          (Memᴰ.tail (Memᴰ.tail (Memᴰ.tail (Memᴰ.head refl)))))))))
                                (ext _ _ (
                                  Memᴰ.tail (
                                    Memᴰ.tail
                                      (Memᴰ.tail (Memᴰ.tail (Memᴰ.tail (Memᴰ.head refl)))))))
                                (
                                  ext _ _ (
                                      Memᴰ.tail (
                                        Memᴰ.tail (
                                          Memᴰ.tail (
                                            Memᴰ.tail (
                                              Memᴰ.tail (
                                                Memᴰ.tail (
                                                  Memᴰ.tail
                                                    (Memᴰ.tail (Memᴰ.tail (Memᴰ.head refl)))))))))),
                                  ext _ _ (
                                      Memᴰ.tail (
                                        Memᴰ.tail (
                                          Memᴰ.tail
                                            (Memᴰ.tail (Memᴰ.tail (Memᴰ.tail (Memᴰ.head refl))))))),
                                  _,
                                  ext _ _ (
                                      Memᴰ.tail
                                        (Memᴰ.tail (Memᴰ.tail (Memᴰ.tail (Memᴰ.head refl))))),
                                )
                                ops))))))))
