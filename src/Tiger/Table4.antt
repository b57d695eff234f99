-- ===== src/Tiger/Table4.antt =====
-- The fourth quarter of `TigerHash::table` in adclib/tiger.cpp, the macro `t4`.
use luadch.Common.{ℕ, List, [], ◌∷◌}

unfoldable pub t4 : List ℕ
t4 =
    0x5b0e608526323c55 ∷ 0x1a46c1a9fa1b59f5 ∷ 0xa9e245a17c4c8ffa ∷ 0x65ca5159db2955d7
    ∷ 0x05db0a76ce35afc2 ∷ 0x81eac77ea9113d45 ∷ 0x528ef88ab6ac0a0d ∷ 0xa09ea253597be3ff
    ∷ 0x430ddfb3ac48cd56 ∷ 0xc4b3a67af45ce46f ∷ 0x4ececfd8fbe2d05e ∷ 0x3ef56f10b39935f0
    ∷ 0x0b22d6829cd619c6 ∷ 0x17fd460a74df2069 ∷ 0x6cf8cc8e8510ed40 ∷ 0xd6c824bf3a6ecaa7
    ∷ 0x61243d581a817049 ∷ 0x048bacb6bbc163a2 ∷ 0xd9a38ac27d44cc32 ∷ 0x7fddff5baaf410ab
    ∷ 0xad6d495aa804824b ∷ 0xe1a6a74f2d8c9f94 ∷ 0xd4f7851235dee8e3 ∷ 0xfd4b7f886540d893
    ∷ 0x247c20042aa4bfda ∷ 0x096ea1c517d1327c ∷ 0xd56966b4361a6685 ∷ 0x277da5c31221057d
    ∷ 0x94d59893a43acff7 ∷ 0x64f0c51ccdc02281 ∷ 0x3d33bcc4ff6189db ∷ 0xe005cb184ce66af1
    ∷ 0xff5ccd1d1db99bea ∷ 0xb0b854a7fe42980f ∷ 0x7bd46a6a718d4b9f ∷ 0xd10fa8cc22a5fd8c
    ∷ 0xd31484952be4bd31 ∷ 0xc7fa975fcb243847 ∷ 0x4886ed1e5846c407 ∷ 0x28cddb791eb70b04
    ∷ 0xc2b00be2f573417f ∷ 0x5c9590452180f877 ∷ 0x7a6bddfff370eb00 ∷ 0xce509e38d6d9d6a4
    ∷ 0xebeb0f00647fa702 ∷ 0x1dcc06cf76606f06 ∷ 0xe4d9f28ba286ff0a ∷ 0xd85a305dc918c262
    ∷ 0x475b1d8732225f54 ∷ 0x2d4fb51668ccb5fe ∷ 0xa679b9d9d72bba20 ∷ 0x53841c0d912d43a5
    ∷ 0x3b7eaa48bf12a4e8 ∷ 0x781e0e47f22f1ddf ∷ 0xeff20ce60ab50973 ∷ 0x20d261d19dffb742
    ∷ 0x16a12b03062a2e39 ∷ 0x1960eb2239650495 ∷ 0x251c16fed50eb8b8 ∷ 0x9ac0c330f826016e
    ∷ 0xed152665953e7671 ∷ 0x02d63194a6369570 ∷ 0x5074f08394b1c987 ∷ 0x70ba598c90b25ce1
    ∷ 0x794a15810b9742f6 ∷ 0x0d5925e9fcaf8c6c ∷ 0x3067716cd868744e ∷ 0x910ab077e8d7731b
    ∷ 0x6a61bbdb5ac42f61 ∷ 0x93513efbf0851567 ∷ 0xf494724b9e83e9d5 ∷ 0xe887e1985c09648d
    ∷ 0x34b1d3c675370cfd ∷ 0xdc35e433bc0d255d ∷ 0xd0aab84234131be0 ∷ 0x08042a50b48b7eaf
    ∷ 0x9997c4ee44a3ab35 ∷ 0x829a7b49201799d0 ∷ 0x263b8307b7c54441 ∷ 0x752f95f4fd6a6ca6
    ∷ 0x927217402c08c6e5 ∷ 0x2a8ab754a795d9ee ∷ 0xa442f7552f72943d ∷ 0x2c31334e19781208
    ∷ 0x4fa98d7ceaee6291 ∷ 0x55c3862f665db309 ∷ 0xbd0610175d53b1f3 ∷ 0x46fe6cb840413f27
    ∷ 0x3fe03792df0cfa59 ∷ 0xcfe700372eb85e8f ∷ 0xa7be29e7adbce118 ∷ 0xe544ee5cde8431dd
    ∷ 0x8a781b1b41f1873e ∷ 0xa5c94c78a0d2f0e7 ∷ 0x39412e2877b60728 ∷ 0xa1265ef3afc9a62c
    ∷ 0xbcc2770c6a2506c5 ∷ 0x3ab66dd5dce1ce12 ∷ 0xe65499d04a675b37 ∷ 0x7d8f523481bfd216
    ∷ 0x0f6f64fcec15f389 ∷ 0x74efbe618b5b13c8 ∷ 0xacdc82b714273e1d ∷ 0xdd40bfe003199d17
    ∷ 0x37e99257e7e061f8 ∷ 0xfa52626904775aaa ∷ 0x8bbbf63a463d56f9 ∷ 0xf0013f1543a26e64
    ∷ 0xa8307e9f879ec898 ∷ 0xcc4c27a4150177cc ∷ 0x1b432f2cca1d3348 ∷ 0xde1d1f8f9f6fa013
    ∷ 0x606602a047a7ddd6 ∷ 0xd237ab64cc1cb2c7 ∷ 0x9b938e7225fcd1d3 ∷ 0xec4e03708e0ff476
    ∷ 0xfeb2fbda3d03c12d ∷ 0xae0bced2ee43889a ∷ 0x22cb8923ebfb4f43 ∷ 0x69360d013cf7396d
    ∷ 0x855e3602d2d4e022 ∷ 0x073805bad01f784c ∷ 0x33e17a133852f546 ∷ 0xdf4874058ac7b638
    ∷ 0xba92b29c678aa14a ∷ 0x0ce89fc76cfaadcd ∷ 0x5f9d4e0908339e34 ∷ 0xf1afe9291f5923b9
    ∷ 0x6e3480f60f4a265f ∷ 0xeebf3a2ab29b841c ∷ 0xe21938a88f91b4ad ∷ 0x57dfeff845c6d3c3
    ∷ 0x2f006b0bf62caaf2 ∷ 0x62f479ef6f75ee78 ∷ 0x11a55ad41c8916a9 ∷ 0xf229d29084fed453
    ∷ 0x42f1c27b16b000e6 ∷ 0x2b1f76749823c074 ∷ 0x4b76eca3c2745360 ∷ 0x8c98f463b91691bd
    ∷ 0x14bcc93cf1ade66a ∷ 0x8885213e6d458397 ∷ 0x8e177df0274d4711 ∷ 0xb49b73b5503f2951
    ∷ 0x10168168c3f96b6b ∷ 0x0e3d963b63cab0ae ∷ 0x8dfc4b5655a1db14 ∷ 0xf789f1356e14de5c
    ∷ 0x683e68af4e51dac1 ∷ 0xc9a84f9d8d4b0fd9 ∷ 0x3691e03f52a0f9d1 ∷ 0x5ed86e46e1878e80
    ∷ 0x3c711a0e99d07150 ∷ 0x5a0865b20c4e9310 ∷ 0x56fbfc1fe4f0682e ∷ 0xea8d5de3105edf9b
    ∷ 0x71abfdb12379187a ∷ 0x2eb99de1bee77b9c ∷ 0x21ecc0ea33cf4523 ∷ 0x59a4d7521805c7a1
    ∷ 0x3896f5eb56ae7c72 ∷ 0xaa638f3db18f75dc ∷ 0x9f39358dabe9808e ∷ 0xb7defa91c00b72ac
    ∷ 0x6b5541fd62492d92 ∷ 0x6dc6dee8f92e4d5b ∷ 0x353f57abc4beea7e ∷ 0x735769d6da5690ce
    ∷ 0x0a234aa642391484 ∷ 0xf6f9508028f80d9d ∷ 0xb8e319a27ab3f215 ∷ 0x31ad9c1151341a4d
    ∷ 0x773c22a57bef5805 ∷ 0x45c7561a07968633 ∷ 0xf913da9e249dbe36 ∷ 0xda652d9b78a64c68
    ∷ 0x4c27a97f3bc334ef ∷ 0x76621220e66b17f4 ∷ 0x967743899acd7d0b ∷ 0xf3ee5bcae0ed6782
    ∷ 0x409f753600c879fc ∷ 0x06d09a39b5926db6 ∷ 0x6f83aeb0317ac588 ∷ 0x01e6ca4a86381f21
    ∷ 0x66ff3462d19f3025 ∷ 0x72207c24ddfd3bfb ∷ 0x4af6b6d3e2ece2eb ∷ 0x9c994dbec7ea08de
    ∷ 0x49ace597b09a8bc4 ∷ 0xb38c4766cf0797ba ∷ 0x131b9373c57c2a75 ∷ 0xb1822cce61931e58
    ∷ 0x9d7555b909ba1c0c ∷ 0x127fafdd937d11d2 ∷ 0x29da3badc66d92e4 ∷ 0xa2c1d57154c2ecbc
    ∷ 0x58c5134d82f6fe24 ∷ 0x1c3ae3515b62274f ∷ 0xe907c82e01cb8126 ∷ 0xf8ed091913e37fcb
    ∷ 0x3249d8f9c80046c9 ∷ 0x80cf9bede388fb63 ∷ 0x1881539a116cf19e ∷ 0x5103f3f76bd52457
    ∷ 0x15b7e6f5ae47f7a8 ∷ 0xdbd7c6ded47e9ccf ∷ 0x44e55c410228bb1a ∷ 0xb647d4255edb4e99
    ∷ 0x5d11882bb8aafc30 ∷ 0xf5098bbb29d3212a ∷ 0x8fb5ea14e90296b3 ∷ 0x677b942157dd025a
    ∷ 0xfb58e7c0a390acb5 ∷ 0x89d3674c83bd4a01 ∷ 0x9e2da4df4bf3b93b ∷ 0xfcc41e328cab4829
    ∷ 0x03f38c96ba582c52 ∷ 0xcad1bdbd7fd85db2 ∷ 0xbbb442c16082ae83 ∷ 0xb95fe86ba5da9ab0
    ∷ 0xb22e04673771a93f ∷ 0x845358c9493152d8 ∷ 0xbe2a488697b4541e ∷ 0x95a2dc2dd38e6966
    ∷ 0xc02c11ac923c852b ∷ 0x2388b1990df2a87b ∷ 0x7c8008fa1b4f37be ∷ 0x1f70d0c84d54e503
    ∷ 0x5490adec7ece57d4 ∷ 0x002b3c27d9063a3a ∷ 0x7eaea3848030a2bf ∷ 0xc602326ded2003c0
    ∷ 0x83a7287d69a94086 ∷ 0xc57a5fcb30f57a8a ∷ 0xb56844e479ebe779 ∷ 0xa373b40f05dcbce9
    ∷ 0xd71a786e88570ee2 ∷ 0x879cbacdbde8f6a0 ∷ 0x976ad1bcc164a32f ∷ 0xab21e25e9666d78b
    ∷ 0x901063aae5e5c33c ∷ 0x9818b34448698d90 ∷ 0xe36487ae3e1e8abb ∷ 0xafbdf931893bdcb4
    ∷ 0x6345a0dc5fbbd519 ∷ 0x8628fe269b9465ca ∷ 0x1e5d01603f9c51ec ∷ 0x4de44006a15049b7
    ∷ 0xbf6c70e5f776cbb1 ∷ 0x411218f2ef552bed ∷ 0xcb0c0708705a36a3 ∷ 0xe74d14754f986044
    ∷ 0xcd56d9430ea8280e ∷ 0xc12591d7535f5065 ∷ 0xc83223f1720aef96 ∷ 0xc3a0396f7363a51f ∷ []
