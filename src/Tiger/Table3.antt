-- ===== src/Tiger/Table3.antt =====
-- The third quarter of `TigerHash::table` in adclib/tiger.cpp, the macro `t3`.
use luadch.Common.{ℕ, List, [], ◌∷◌}

unfoldable pub t3 : List ℕ
t3 =
    0xf49fcc2ff1daf39b ∷ 0x487fd5c66ff29281 ∷ 0xe8a30667fcdca83f ∷ 0x2c9b4be3d2fcce63
    ∷ 0xda3ff74b93fbbbc2 ∷ 0x2fa165d2fe70ba66 ∷ 0xa103e279970e93d4 ∷ 0xbecdec77b0e45e71
    ∷ 0xcfb41e723985e497 ∷ 0xb70aaa025ef75017 ∷ 0xd42309f03840b8e0 ∷ 0x8efc1ad035898579
    ∷ 0x96c6920be2b2abc5 ∷ 0x66af4163375a9172 ∷ 0x2174abdcca7127fb ∷ 0xb33ccea64a72ff41
    ∷ 0xf04a4933083066a5 ∷ 0x8d970acdd7289af5 ∷ 0x8f96e8e031c8c25e ∷ 0xf3fec02276875d47
    ∷ 0xec7bf310056190dd ∷ 0xf5adb0aebb0f1491 ∷ 0x9b50f8850fd58892 ∷ 0x4975488358b74de8
    ∷ 0xa3354ff691531c61 ∷ 0x0702bbe481d2c6ee ∷ 0x89fb24057deded98 ∷ 0xac3075138596e902
    ∷ 0x1d2d3580172772ed ∷ 0xeb738fc28e6bc30d ∷ 0x5854ef8f63044326 ∷ 0x9e5c52325add3bbe
    ∷ 0x90aa53cf325c4623 ∷ 0xc1d24d51349dd067 ∷ 0x2051cfeea69ea624 ∷ 0x13220f0a862e7e4f
    ∷ 0xce39399404e04864 ∷ 0xd9c42ca47086fcb7 ∷ 0x685ad2238a03e7cc ∷ 0x066484b2ab2ff1db
    ∷ 0xfe9d5d70efbf79ec ∷ 0x5b13b9dd9c481854 ∷ 0x15f0d475ed1509ad ∷ 0x0bebcd060ec79851
    ∷ 0xd58c6791183ab7f8 ∷ 0xd1187c5052f3eee4 ∷ 0xc95d1192e54e82ff ∷ 0x86eea14cb9ac6ca2
    ∷ 0x3485beb153677d5d ∷ 0xdd191d781f8c492a ∷ 0xf60866baa784ebf9 ∷ 0x518f643ba2d08c74
    ∷ 0x8852e956e1087c22 ∷ 0xa768cb8dc410ae8d ∷ 0x38047726bfec8e1a ∷ 0xa67738b4cd3b45aa
    ∷ 0xad16691cec0dde19 ∷ 0xc6d4319380462e07 ∷ 0xc5a5876d0ba61938 ∷ 0x16b9fa1fa58fd840
    ∷ 0x188ab1173ca74f18 ∷ 0xabda2f98c99c021f ∷ 0x3e0580ab134ae816 ∷ 0x5f3b05b773645abb
    ∷ 0x2501a2be5575f2f6 ∷ 0x1b2f74004e7e8ba9 ∷ 0x1cd7580371e8d953 ∷ 0x7f6ed89562764e30
    ∷ 0xb15926ff596f003d ∷ 0x9f65293da8c5d6b9 ∷ 0x6ecef04dd690f84c ∷ 0x4782275fff33af88
    ∷ 0xe41433083f820801 ∷ 0xfd0dfe409a1af9b5 ∷ 0x4325a3342cdb396b ∷ 0x8ae77e62b301b252
    ∷ 0xc36f9e9f6655615a ∷ 0x85455a2d92d32c09 ∷ 0xf2c7dea949477485 ∷ 0x63cfb4c133a39eba
    ∷ 0x83b040cc6ebc5462 ∷ 0x3b9454c8fdb326b0 ∷ 0x56f56a9e87ffd78c ∷ 0x2dc2940d99f42bc6
    ∷ 0x98f7df096b096e2d ∷ 0x19a6e01e3ad852bf ∷ 0x42a99ccbdbd4b40b ∷ 0xa59998af45e9c559
    ∷ 0x366295e807d93186 ∷ 0x6b48181bfaa1f773 ∷ 0x1fec57e2157a0a1d ∷ 0x4667446af6201ad5
    ∷ 0xe615ebcacfb0f075 ∷ 0xb8f31f4f68290778 ∷ 0x22713ed6ce22d11e ∷ 0x3057c1a72ec3c93b
    ∷ 0xcb46acc37c3f1f2f ∷ 0xdbb893fd02aaf50e ∷ 0x331fd92e600b9fcf ∷ 0xa498f96148ea3ad6
    ∷ 0xa8d8426e8b6a83ea ∷ 0xa089b274b7735cdc ∷ 0x87f6b3731e524a11 ∷ 0x118808e5cbc96749
    ∷ 0x9906e4c7b19bd394 ∷ 0xafed7f7e9b24a20c ∷ 0x6509eadeeb3644a7 ∷ 0x6c1ef1d3e8ef0ede
    ∷ 0xb9c97d43e9798fb4 ∷ 0xa2f2d784740c28a3 ∷ 0x7b8496476197566f ∷ 0x7a5be3e6b65f069d
    ∷ 0xf96330ed78be6f10 ∷ 0xeee60de77a076a15 ∷ 0x2b4bee4aa08b9bd0 ∷ 0x6a56a63ec7b8894e
    ∷ 0x02121359ba34fef4 ∷ 0x4cbf99f8283703fc ∷ 0x398071350caf30c8 ∷ 0xd0a77a89f017687a
    ∷ 0xf1c1a9eb9e423569 ∷ 0x8c7976282dee8199 ∷ 0x5d1737a5dd1f7abd ∷ 0x4f53433c09a9fa80
    ∷ 0xfa8b0c53df7ca1d9 ∷ 0x3fd9dcbc886ccb77 ∷ 0xc040917ca91b4720 ∷ 0x7dd00142f9d1dcdf
    ∷ 0x8476fc1d4f387b58 ∷ 0x23f8e7c5f3316503 ∷ 0x032a2244e7e37339 ∷ 0x5c87a5d750f5a74b
    ∷ 0x082b4cc43698992e ∷ 0xdf917becb858f63c ∷ 0x3270b8fc5bf86dda ∷ 0x10ae72bb29b5dd76
    ∷ 0x576ac94e7700362b ∷ 0x1ad112dac61efb8f ∷ 0x691bc30ec5faa427 ∷ 0xff246311cc327143
    ∷ 0x3142368e30e53206 ∷ 0x71380e31e02ca396 ∷ 0x958d5c960aad76f1 ∷ 0xf8d6f430c16da536
    ∷ 0xc8ffd13f1be7e1d2 ∷ 0x7578ae66004ddbe1 ∷ 0x05833f01067be646 ∷ 0xbb34b5ad3bfe586d
    ∷ 0x095f34c9a12b97f0 ∷ 0x247ab64525d60ca8 ∷ 0xdcdbc6f3017477d1 ∷ 0x4a2e14d4decad24d
    ∷ 0xbdb5e6d9be0a1eeb ∷ 0x2a7e70f7794301ab ∷ 0xdef42d8a270540fd ∷ 0x01078ec0a34c22c1
    ∷ 0xe5de511af4c16387 ∷ 0x7ebb3a52bd9a330a ∷ 0x77697857aa7d6435 ∷ 0x004e831603ae4c32
    ∷ 0xe7a21020ad78e312 ∷ 0x9d41a70c6ab420f2 ∷ 0x28e06c18ea1141e6 ∷ 0xd2b28cbd984f6b28
    ∷ 0x26b75f6c446e9d83 ∷ 0xba47568c4d418d7f ∷ 0xd80badbfe6183d8e ∷ 0x0e206d7f5f166044
    ∷ 0xe258a43911cbca3e ∷ 0x723a1746b21dc0bc ∷ 0xc7caa854f5d7cdd3 ∷ 0x7cac32883d261d9c
    ∷ 0x7690c26423ba942c ∷ 0x17e55524478042b8 ∷ 0xe0be477656a2389f ∷ 0x4d289b5e67ab2da0
    ∷ 0x44862b9c8fbbfd31 ∷ 0xb47cc8049d141365 ∷ 0x822c1b362b91c793 ∷ 0x4eb14655fb13dfd8
    ∷ 0x1ecbba0714e2a97b ∷ 0x6143459d5cde5f14 ∷ 0x53a8fbf1d5f0ac89 ∷ 0x97ea04d81c5e5b00
    ∷ 0x622181a8d4fdb3f3 ∷ 0xe9bcd341572a1208 ∷ 0x1411258643cce58a ∷ 0x9144c5fea4c6e0a4
    ∷ 0x0d33d06565cf620f ∷ 0x54a48d489f219ca1 ∷ 0xc43e5eac6d63c821 ∷ 0xa9728b3a72770daf
    ∷ 0xd7934e7b20df87ef ∷ 0xe35503b61a3e86e5 ∷ 0xcae321fbc819d504 ∷ 0x129a50b3ac60bfa6
    ∷ 0xcd5e68ea7e9fb6c3 ∷ 0xb01c90199483b1c7 ∷ 0x3de93cd5c295376c ∷ 0xaed52edf2ab9ad13
    ∷ 0x2e60f512c0a07884 ∷ 0xbc3d86a3e36210c9 ∷ 0x35269d9b163951ce ∷ 0x0c7d6e2ad0cdb5fa
    ∷ 0x59e86297d87f5733 ∷ 0x298ef221898db0e7 ∷ 0x55000029d1a5aa7e ∷ 0x8bc08ae1b5061b45
    ∷ 0xc2c31c2b6c92703a ∷ 0x94cc596baf25ef42 ∷ 0x0a1d73db22540456 ∷ 0x04b6a0f9d9c4179a
    ∷ 0xeffdafa2ae3d3c60 ∷ 0xf7c8075bb49496c4 ∷ 0x9cc5c7141d1cd4e3 ∷ 0x78bd1638218e5534
    ∷ 0xb2f11568f850246a ∷ 0xedfabcfa9502bc29 ∷ 0x796ce5f2da23051b ∷ 0xaae128b0dc93537c
    ∷ 0x3a493da0ee4b29ae ∷ 0xb5df6b2c416895d7 ∷ 0xfcabbd25122d7f37 ∷ 0x70810b58105dc4b1
    ∷ 0xe10fdd37f7882a90 ∷ 0x524dcab5518a3f5c ∷ 0x3c9e85878451255b ∷ 0x4029828119bd34e2
    ∷ 0x74a05b6f5d3ceccb ∷ 0xb610021542e13eca ∷ 0x0ff979d12f59e2ac ∷ 0x6037da27e4f9cc50
    ∷ 0x5e92975a0df1847d ∷ 0xd66de190d3e623fe ∷ 0x5032d6b87b568048 ∷ 0x9a36b7ce8235216e
    ∷ 0x80272a7a24f64b4a ∷ 0x93efed8b8c6916f7 ∷ 0x37ddbff44cce1555 ∷ 0x4b95db5d4b99bd25
    ∷ 0x92d3fda169812fc0 ∷ 0xfb1a4a9a90660bb6 ∷ 0x730c196946a4b9b2 ∷ 0x81e289aa7f49da68
    ∷ 0x64669a0f83b1a05f ∷ 0x27b3ff7d9644f48b ∷ 0xcc6b615c8db675b3 ∷ 0x674f20b9bcebbe95
    ∷ 0x6f31238275655982 ∷ 0x5ae488713e45cf05 ∷ 0xbf619f9954c21157 ∷ 0xeabac46040a8eae9
    ∷ 0x454c6fe9f2c0c1cd ∷ 0x419cf6496412691c ∷ 0xd3dc3bef265b0f70 ∷ 0x6d0e60f5c3578a9e ∷ []
